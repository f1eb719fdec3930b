-- ===== src/TxFree/Frees.antt =====
-- A report gives back the tokens of its frames, and loses no wake-up.
use mt.Common.{
  ℕ, ◌≡◌, ◌≢◌, refl, sym, ◌∙◌, ap, subst, Bool, true, false, ◌⊎◌, inl, inr, Option, none, some,
  List, [], ◌∷◌, if◌then◌else◌, ◌==◌, Bool-cases, ==→eq, ==→ne,
}
use mt.Kernel.Idr.{IdrOps, IsIdr}
use mt.Token.{Tokens, release, count_down}
use mt.Token.Flow.{System, here, next, given, Flowing, Reach-Flowing}
use mt.TxFree.{State, is_pair, msdu_id, new_pair, one_msdu, handle}
use mt.TxFree.Walk.{handle_all}
use mt.TxFree.Flow.{flow, gave, pair-flow, msdu-flow}

-- No frame of these words has its token any more.
abbrev pub GivenIf : Bool → Option ℕ → Type 0
GivenIf true o = Unit {0}
GivenIf false o = o ≡ none

abbrev pub AllGiven : (ℕ → Option ℕ) → List ℕ → Type 0
AllGiven find [] = Unit {0}
AllGiven find (w ∷ ws) = GivenIf (is_pair w) (find (msdu_id w)) × AllGiven find ws

module _ {S : Type 0} (k : IdrOps S) (law : IsIdr S k) where
  abbrev pub finds : Tokens S → ℕ → Option ℕ
  finds d i = k.find d.token i

  down-token :
      (d : Tokens S) (s : S) (p : Option ℕ) → (count_down (record d { token = s }) p).token ≡ s
  unfolding count_down
  down-token d s none = refl
  down-token d s (some x) = refl

  gave-none :
      (s : System S) (t i : ℕ) → (i ≡ t) ⊎ (finds s.dev i ≡ none) → finds (gave k s t).dev i ≡ none
  unfolding release
  gave-none s t i h =
      let (held, gone, rest) = law.remove_lem s.dev.token t in
      ap (λ x. k.find x i) (down-token s.dev (k.remove s.dev.token t).0 (k.remove s.dev.token t).1)
      ∙ elim (Bool-cases (i == t)) [
        | inl e ↦ ap (k.find (k.remove s.dev.token t).0) (==→eq i t e) ∙ gone
        | inr e ↦ rest i (==→ne i t e) ∙ other (==→ne i t e) h
      ]
    where
      other : i ≢ t → (i ≡ t) ⊎ (finds s.dev i ≡ none) → finds s.dev i ≡ none
      other ne (inl e) = absurd (ne e)
      other ne (inr h) = h

  -- One word.
  handle-flow :
      (P : System S → Type 0) (s : State S) (w : ℕ)
      → P (flow s)
      → ((t : ℕ) → P (flow s) → P (gave k (flow s) t))
      → P (flow (handle k s w))
  unfolding handle
  handle-flow P s w h g = elim (Bool-cases (is_pair w)) [
    | inl e ↦
        subst (λ b. P (flow (if b then new_pair s w else one_msdu k s w))) (sym e)
          (subst P (sym (pair-flow s w)) h)
    | inr e ↦
        subst (λ b. P (flow (if b then new_pair s w else one_msdu k s w))) (sym e)
          (subst P (sym (msdu-flow k s w)) (g (msdu_id w) h))
  ]

  handle-given :
      (s : State S) (w : ℕ) → GivenIf (is_pair w) (finds (handle k s w).dev.tokens (msdu_id w))
  unfolding handle
  handle-given s w = by (is_pair w)
    where
      by :
          (b : Bool)
          → GivenIf b (finds (if b then new_pair s w else one_msdu k s w).dev.tokens (msdu_id w))
      by true = tt
      by false =
          ap (λ f. finds f.dev (msdu_id w)) (msdu-flow k s w)
          ∙ gave-none (flow s) (msdu_id w) (msdu_id w) (inl refl)

  all-flow :
      (P : System S → Type 0) (ws : List ℕ) (s : State S)
      → ((t : ℕ) (f : System S) → P f → P (gave k f t))
      → P (flow s)
      → P (flow (handle_all k s ws))
  all-flow P [] s g h = h
  all-flow P (w ∷ ws) s g h =
      all-flow P ws (handle k s w) g (handle-flow P s w h (λ t q. g t (flow s) q))

  stays :
      (ws : List ℕ) (s : State S) (b : Bool) (i : ℕ)
      → GivenIf b (finds s.dev.tokens i)
      → GivenIf b (finds (handle_all k s ws).dev.tokens i)
  stays ws s true i h = tt
  stays ws s false i h =
      all-flow (λ f. finds f.dev i ≡ none) ws s (λ t f q. gave-none f t i (inr q)) h

  pub all-given : (ws : List ℕ) (s : State S) → AllGiven (finds (handle_all k s ws).dev.tokens) ws
  all-given [] s = tt
  all-given (w ∷ ws) s = (
    stays ws (handle k s w) (is_pair w) (msdu_id w) (handle-given s w),
    all-given ws (handle k s w),
  )

  pub all-Flowing :
      (ws : List ℕ) (s : State S) → Flowing S k (flow s) → Flowing S k (flow (handle_all k s ws))
  all-Flowing ws s =
      all-flow (Flowing S k) ws s
        (λ t f v. Reach-Flowing S k law f (gave k f t) v (next here (given t)))
