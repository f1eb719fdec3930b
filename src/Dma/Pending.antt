-- ===== src/Dma/Pending.antt =====
-- A transmit ring as a queue of entries: what it holds, its invariant, and writes to its cells.
use native.Mathlib.Nat.{mod-lt, mod-eq_of_lt, mod-add-mod}
use native.Mathlib.Numerals.{add-one}
use mt.Common.{
  ◌^◌, ℕ, suc, ◌+◌, ◌-◌, ◌%◌, ◌≤◌, ◌<◌, ◌≡◌, refl, sym, ◌∙◌, ap, ap₂, arith, List, [], ◌∷◌, ◌++◌,
  length,
}
use mt.Common.Ring.{at, at-ne, update, update-ne, update_self, span, span-suc, span-update}
use mt.Dma.{advance, Entry, clear, Queue}

-- The entries that the ring holds, oldest first.
abbrev pub pending : Queue → List Entry
pending q = span q.entry q.ndesc q.tail q.queued

pub record QInv (q : Queue) : Type 0 where
  pub tail_in : q.tail < q.ndesc
  pub head_lem : q.head ≡ at q.ndesc q.tail q.queued
  pub fits : q.queued ≤ q.ndesc
  pub index_fits : q.ndesc ≤ 2 ^ 16
  pub free : (i : ℕ) → q.queued ≤ i → i < q.ndesc → q.entry (at q.ndesc q.tail i) ≡ clear

-- `f` on the last element of a list.
abbrev pub on_last {ℓ} : {A : Type ℓ} → (A → A) → List A → List A
on_last f [] = []
on_last f (x ∷ []) = f x ∷ []
on_last f (x ∷ y ∷ ys) = x ∷ on_last f (y ∷ ys)

on_last-snoc :
    (f : Entry → Entry) (xs : List Entry) (x : Entry)
    → on_last f (xs ++ (x ∷ [])) ≡ xs ++ (f x ∷ [])
on_last-snoc f [] x = refl
on_last-snoc f (y ∷ []) x = refl
on_last-snoc f (y ∷ z ∷ zs) x = ap (λ l. y ∷ l) (on_last-snoc f (z ∷ zs) x)

pub on_last-append :
    (f : Entry → Entry) (xs : List Entry) (y : Entry) (ys : List Entry)
    → on_last f (xs ++ (y ∷ ys)) ≡ xs ++ on_last f (y ∷ ys)
on_last-append f [] y ys = refl
on_last-append f (x ∷ []) y ys = refl
on_last-append f (x ∷ z ∷ zs) y ys = ap (λ l. x ∷ l) (on_last-append f (z ∷ zs) y ys)

pub length-on_last : (f : Entry → Entry) (xs : List Entry) → length (on_last f xs) ≡ length xs
length-on_last f [] = refl
length-on_last f (x ∷ []) = refl
length-on_last f (x ∷ y ∷ ys) = ap suc (length-on_last f (y ∷ ys))

pub advance_lem :
    (q : Queue) (i : ℕ) → 0 < q.ndesc → q.ndesc ≤ 2 ^ 16 → advance q i ≡ (i + 1) % q.ndesc
advance_lem q i h small = mod-eq_of_lt (omega (arith, mod-lt (i + 1) h))

-- A ring with a free cell at the head, which holds `e`.
pub record HasRoom (q : Queue) (e : Entry) : Type 0 where
  pub tail_in : q.tail < q.ndesc
  pub head_lem : q.head ≡ at q.ndesc q.tail q.queued
  pub fits : q.queued < q.ndesc
  pub index_fits : q.ndesc ≤ 2 ^ 16
  pub at_head : q.entry q.head ≡ e
  pub free : (i : ℕ) → q.queued < i → i < q.ndesc → q.entry (at q.ndesc q.tail i) ≡ clear

pub room_of : {q : Queue} → QInv q → q.queued < q.ndesc → HasRoom q clear
room_of {q} v h = record {
  tail_in = v.tail_in;
  head_lem = v.head_lem;
  fits = h;
  index_fits = v.index_fits;
  at_head = ap q.entry v.head_lem ∙ v.free q.queued (omega arith) h;
  free = λ i l u. v.free i (omega arith) u;
}

-- A write at the head leaves what the ring holds.
pub pending-update :
    (q : Queue) (e f : Entry)
    → HasRoom q e
    → span (update q.entry q.head f) q.ndesc q.tail q.queued ≡ pending q
pending-update q e f v =
    span-update q.entry q.ndesc q.tail q.queued q.head f
      (λ i h eq.
        at-ne q.ndesc q.tail i q.queued v.tail_in (omega (arith, v.fits)) v.fits (omega arith)
          (eq ∙ v.head_lem))
      v.tail_in

pub free-update :
    (q : Queue) (e f : Entry)
    → HasRoom q e
    → (i : ℕ) → q.queued < i
    → i < q.ndesc
    → update q.entry q.head f (at q.ndesc q.tail i) ≡ clear
free-update q e f v i l u =
    update-ne q.entry q.head (at q.ndesc q.tail i) f
      (λ eq. at-ne q.ndesc q.tail i q.queued v.tail_in u v.fits (omega arith) (eq ∙ v.head_lem))
    ∙ v.free i l u

pub next_head :
    (q : Queue)
    → q.head ≡ at q.ndesc q.tail q.queued
    → (q.head + 1) % q.ndesc ≡ at q.ndesc q.tail (q.queued + 1)
next_head q h =
    ap (λ x. (x + 1) % q.ndesc) h
    ∙ (mod-add-mod (q.tail + q.queued) q.ndesc 1 ∙ ap (λ x. x % q.ndesc) (omega arith))

-- One more cell, with what is written at the head.
pub pending_step :
    (q : Queue) (e f : Entry)
    → HasRoom q e
    → span (update q.entry q.head f) q.ndesc q.tail (q.queued + 1) ≡ pending q ++ (f ∷ [])
pending_step q e f v =
    let g = update q.entry q.head f in
    ap (span g q.ndesc q.tail) (add-one q.queued)
    ∙ (span-suc g q.ndesc q.tail q.queued v.tail_in
        ∙ ap₂ (λ xs x. xs ++ (x ∷ [])) (pending-update q e f v)
            (ap g (sym v.head_lem) ∙ update_self q.entry q.head f))

-- A write to the last entry that the ring holds.
pub updated-QInv :
    (q : Queue) (idx : ℕ) (e : Entry)
    → QInv q
    → 0 < q.queued
    → idx ≡ at q.ndesc q.tail (q.queued - 1)
    → QInv (record q { entry = update q.entry idx e })
updated-QInv q idx e v h here = record {
  tail_in = v.tail_in;
  head_lem = v.head_lem;
  fits = v.fits;
  index_fits = v.index_fits;
  free = λ i l u.
      update-ne q.entry idx (at q.ndesc q.tail i) e (λ eq.
        at-ne q.ndesc q.tail i (q.queued - 1) v.tail_in u (omega (arith, v.fits)) (omega arith)
          (eq ∙ here))
      ∙ v.free i l u;
}

pub updated-pending :
    (q : Queue) (idx : ℕ) (f : Entry → Entry)
    → QInv q
    → 0 < q.queued
    → idx ≡ at q.ndesc q.tail (q.queued - 1)
    → pending (record q { entry = update q.entry idx (f (q.entry idx)) }) ≡ on_last f (pending q)
updated-pending q idx f v h here =
    let m = q.queued - 1 in
    let more : q.queued ≡ suc m = omega arith in
    let g = update q.entry idx (f (q.entry idx)) in
    let before = span q.entry q.ndesc q.tail m in
    ap (span g q.ndesc q.tail) more
    ∙ (span-suc g q.ndesc q.tail m v.tail_in
        ∙ (ap₂ (λ xs x. xs ++ (x ∷ []))
              (span-update q.entry q.ndesc q.tail m idx (f (q.entry idx))
                (λ i l eq.
                  at-ne q.ndesc q.tail i m v.tail_in (omega (arith, v.fits)) (omega (arith, v.fits))
                    (omega arith) (eq ∙ here))
                v.tail_in)
              (ap g (sym here)
                ∙ (update_self q.entry idx (f (q.entry idx)) ∙ ap (λ x. f (q.entry x)) here))
            ∙ (sym (on_last-snoc f before (q.entry (at q.ndesc q.tail m)))
                ∙ ap (on_last f) (
                    sym (span-suc q.entry q.ndesc q.tail m v.tail_in)
                    ∙ ap (span q.entry q.ndesc q.tail) (sym more)))))
