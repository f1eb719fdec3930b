-- ===== src/TxFree/Walk.antt =====
-- The loop of mt7921_mac_tx_free as a walk along the list of words.
use mt.Common.{
  ℕ, zero, suc, ◌+◌, ◌-◌, ◌%◌, ◌≤◌, ◌<◌, ◌≡◌, refl, sym, ◌∙◌, ap, ap₂, arith, Bool, true, false,
  ◌&&◌, ◌⊎◌, inl, inr, Option, none, some, List, [], ◌∷◌, ◌++◌, if◌then◌else◌, ◌==◌, ltb, get_elem?,
  drop, if_true, if_false,
}
use mt.Kernel.Idr.{IdrOps}
use mt.TxFree.{State, Res, ok, outside, is_pair, handle, loop}

-- The words that stand for frames, and the others.
abbrev pub msdus : List ℕ → ℕ
msdus [] = 0
msdus (w ∷ ws) = if is_pair w then msdus ws else suc (msdus ws)

abbrev pub pairs : List ℕ → ℕ
pairs [] = 0
pairs (w ∷ ws) = if is_pair w then suc (pairs ws) else pairs ws

-- The words up to the one for the `n`-th frame, or up to pair `p + 1`; none if they end before.
abbrev pub cons_some : ℕ → Option (List ℕ) → Option (List ℕ)
cons_some w none = none
cons_some w (some ws) = some (w ∷ ws)

abbrev pub part : ℕ → ℕ → List ℕ → Option (List ℕ)
part zero p ws = some []
part (suc n) p [] = none
part (suc n) p (w ∷ ws) =
    let rest = part (if is_pair w then suc n else n) (if is_pair w then p - 1 else p) ws in
    if is_pair w && (p == 0) then some (w ∷ []) else cons_some w rest

module _ {S : Type 0} (k : IdrOps S) where
  abbrev pub handle_all : State S → List ℕ → State S
  handle_all s [] = s
  handle_all s (w ∷ ws) = handle_all (handle k s w) ws

  abbrev pub walked : State S → Option (List ℕ) → Res (State S)
  walked s none = outside
  walked s (some ws) = ok (handle_all s ws)

  walked-cons :
      (s : State S) (w : ℕ) (o : Option (List ℕ))
      → walked (handle k s w) o ≡ walked s (cons_some w o)
  walked-cons s w none = refl
  walked-cons s w (some ws) = refl

abbrev Look : List ℕ → ℕ → Type 0
Look t i =
    (drop i t ≡ []) × (get_elem? t i ≡ none)
    ⊎ ((w : ℕ) × (drop i t ≡ w ∷ drop (suc i) t) × (get_elem? t i ≡ some w))

look : (t : List ℕ) (i : ℕ) → Look t i
look [] zero = inl (refl, refl)
look [] (suc i) = inl (refl, refl)
look (x ∷ t) zero = inr (x, refl, refl)
look (x ∷ t) (suc i) = look t i

module _ {S : Type 0} (k : IdrOps S) where
  stops :
      (f i count : ℕ) (t : List ℕ) (s : State S) → 1 ≤ f → count ≤ i → loop k f i count t s ≡ ok s
  unfolding loop
  stops zero i count t s h l = ground (arith, h)
  stops (suc f) i count t s h l = if_false (ltb i count) _ _ (ground (arith, l))

  -- One word on.
  next_word :
      (f n p i : ℕ) (t : List ℕ) (s : State S) (w : ℕ) (c : Bool)
      → ((n p i : ℕ) (s : State S)
          → n + p + i ≡ 255
          → n + p + 1 ≤ f
          → loop k f i (i + n) t s ≡ walked k s (part n p (drop i t)))
      → suc n + p + i ≡ 255
      → n + p + 1 ≤ f
      → loop k f ((i + 1) % 256) (if c then (i + suc n + 1) % 256 else i + suc n) t (handle k s w)
        ≡ walked k s (
            if c && (p == 0)
            then some (w ∷ [])
            else cons_some w
                (part (if c then suc n else n) (if c then p - 1 else p) (drop (suc i) t)))
  next_word f n zero i t s w true ih e h =
      stops f ((i + 1) % 256) ((i + suc n + 1) % 256) t (handle k s w) (omega (arith, h))
        (omega (arith, e))
  next_word f n (suc p) i t s w true ih e h =
      ap₂ (λ a b. loop k f a b t (handle k s w)) (omega (arith, e)) (omega (arith, e))
      ∙ (ih (suc n) (suc p - 1) (suc i) (handle k s w) (omega (arith, e)) (omega (arith, h))
          ∙ (walked-cons k s w (part (suc n) (suc p - 1) (drop (suc i) t))
              ∙ ap (walked k s) (sym (if_false (suc p == 0) _ _ (ground arith)))))
  next_word f n p i t s w false ih e h =
      ap₂ (λ a b. loop k f a b t (handle k s w)) (omega (arith, e)) (omega (arith, e))
      ∙ (ih n p (suc i) (handle k s w) (omega (arith, e)) (omega (arith, h))
          ∙ walked-cons k s w (part n p (drop (suc i) t)))

  -- The counters keep `n` frames and `p` pairs apart from their ends.
  pub loop_lem :
      (f n p i : ℕ) (t : List ℕ) (s : State S)
      → n + p + i ≡ 255
      → n + p + 1 ≤ f
      → loop k f i (i + n) t s ≡ walked k s (part n p (drop i t))
  unfolding loop
  loop_lem zero n p i t s e h = ground (arith, h)
  loop_lem (suc f) zero p i t s e h = if_false (ltb i (i + zero)) _ _ (ground arith)
  loop_lem (suc f) (suc n) p i t s e h =
      if_true (ltb i (i + suc n)) _ _ (ground arith) ∙ elim (look t i) [
        | inl (gone, read) ↦ rw (gone, read) refl
        | inr (w, left, read) ↦
            rw (left, read)
              (next_word f n p i t s w (is_pair w) (λ n p i s a b. loop_lem f n p i t s a b) e
                (omega (arith, h)))
      ]

-- What the part is of the words.
abbrev pub IsPart : ℕ → ℕ → List ℕ → Option (List ℕ) → Type 0
IsPart n p ws none = msdus ws < n
IsPart n p ws (some ps) =
    ((rest : List ℕ) × (ws ≡ ps ++ rest)) × ((msdus ps ≡ n) ⊎ (pairs ps ≡ suc p))

pair-IsPart :
    (n p w : ℕ) (ws : List ℕ) (o : Option (List ℕ))
    → is_pair w ≡ true
    → 1 ≤ p
    → IsPart (suc n) (p - 1) ws o
    → IsPart (suc n) p (w ∷ ws) (cons_some w o)
pair-IsPart n p w ws none e l h =
    omega (arith, if_true (is_pair w) (msdus ws) (suc (msdus ws)) e, h)
pair-IsPart n p w ws (some ps) e l ((rest, q), h) = (
  (rest, ap (λ t. w ∷ t) q),
  elim h [
    | inl m ↦ inl (if_true (is_pair w) (msdus ps) (suc (msdus ps)) e ∙ m)
    | inr m ↦ inr (if_true (is_pair w) (suc (pairs ps)) (pairs ps) e ∙ omega (arith, m, l))
  ],
)

msdu-IsPart :
    (n p w : ℕ) (ws : List ℕ) (o : Option (List ℕ))
    → is_pair w ≡ false
    → IsPart n p ws o
    → IsPart (suc n) p (w ∷ ws) (cons_some w o)
msdu-IsPart n p w ws none e h = omega (arith, if_false (is_pair w) (msdus ws) (suc (msdus ws)) e, h)
msdu-IsPart n p w ws (some ps) e ((rest, q), h) = (
  (rest, ap (λ t. w ∷ t) q),
  elim h [
    | inl m ↦ inl (if_false (is_pair w) (msdus ps) (suc (msdus ps)) e ∙ ap suc m)
    | inr m ↦ inr (if_false (is_pair w) (suc (pairs ps)) (pairs ps) e ∙ m)
  ],
)

pub part-IsPart : (ws : List ℕ) (n p : ℕ) → IsPart n p ws (part n p ws)
part-IsPart ws zero p = ((ws, refl), inl refl)
part-IsPart [] (suc n) p = omega arith
part-IsPart (w ∷ ws) (suc n) p =
    one_word (is_pair w) refl (p == 0) refl
      (part-IsPart ws (if is_pair w then suc n else n) (if is_pair w then p - 1 else p))
  where
    one_word :
        (c : Bool)
        → is_pair w ≡ c
        → (z : Bool) → (p == 0) ≡ z
        → IsPart
            (if c then suc n else n)
            (if c then p - 1 else p)
            ws
            (part (if c then suc n else n) (if c then p - 1 else p) ws)
        → IsPart (suc n) p (w ∷ ws) (
            if c && z
            then some (w ∷ [])
            else cons_some w (part (if c then suc n else n) (if c then p - 1 else p) ws))
    one_word true e true z h = ((ws, refl), inr (if_true (is_pair w) 1 0 e ∙ ground (arith, z)))
    one_word true e false z h = pair-IsPart n p w ws _ e (ground (arith, z)) h
    one_word false e z q h = msdu-IsPart n p w ws _ e h
