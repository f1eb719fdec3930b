-- ===== src/Common/Ring.antt =====
-- Positions on a ring of `n` cells, counted from a tail, and the cells that a stretch of it holds.
use native.Mathlib.Decide.{dec_lt}
use native.Mathlib.Nat.{mod-lt, mod-eq_of_lt, mod-eq-sub-mod, mod-add-mod, add-mod_right}
use Prim.Native.Nat.{ℕ, zero, suc, ◌+◌, ◌-◌, ◌%◌, ◌≤◌, ◌<◌}
use mathlib.Core.Path.{◌≡◌, refl, sym, ap, ap₂, ◌∙◌}
use mathlib.Core.Logic.{◌≢◌, ◌⊎◌, inl, inr}
use mathlib.Core.List.{List, [], ◌∷◌, ◌++◌}
use native.Mathlib.Omega.{arith}
use mt.Common.Tests.{◌==◌, if◌then◌else◌, Bool-cases, ==→eq, ==_iff}

-- A ring's position `i` cells on from `t`.
abbrev pub at : ℕ → ℕ → ℕ → ℕ
at n t i = (t + i) % n

at_small :
    (n t i : ℕ)
    → t < n
    → i < n
    → (at n t i ≡ t + i) × (t + i < n) ⊎ (at n t i ≡ t + i - n) × (n ≤ t + i)
at_small n t i ht hi = elim (dec_lt (t + i) n) [
  | yes p ↦ inl (mod-eq_of_lt p, p)
  | no p ↦ inr (
    mod-eq-sub-mod {n = t + i} {m = n} (omega arith)
        ∙ mod-eq_of_lt {n = t + i - n} {m = n} (omega arith),
    omega arith,
  )
]

-- Different positions are different cells.
pub at-ne : (n t i j : ℕ) → t < n → i < n → j < n → i ≢ j → at n t i ≢ at n t j
at-ne n t i j ht hi hj ne e = ground (arith, at_small n t i ht hi, at_small n t j ht hj)

pub at-step : (n t i : ℕ) → at n ((t + 1) % n) i ≡ at n t (i + 1)
at-step n t i = mod-add-mod (t + 1) n i ∙ ap (λ x. x % n) (omega arith)

pub at-zero : (n t : ℕ) → t < n → at n t 0 ≡ t
at-zero n t h = ap (λ x. x % n) (omega arith) ∙ mod-eq_of_lt h

-- Every cell is some position.
pub at-onto : (n t x : ℕ) → t < n → x < n → (i : ℕ) × (i < n) × (at n t i ≡ x)
at-onto n t x ht hx = elim (dec_lt x t) [
  | yes p ↦ (
    x + n - t,
    omega arith,
    ap (λ y. y % n) (omega arith) ∙ (add-mod_right x n ∙ mod-eq_of_lt hx),
  )
  | no p ↦ (x - t, omega arith, ap (λ y. y % n) (omega arith) ∙ mod-eq_of_lt hx)
]

module _ {ℓ} {A : Type ℓ} where
  abbrev pub update : (ℕ → A) → ℕ → A → ℕ → A
  update f i v j = if j == i then v else f j

  pub update-ne : (f : ℕ → A) (i j : ℕ) (v : A) → j ≢ i → update f i v j ≡ f j
  update-ne f i j v ne = elim (Bool-cases (j == i)) [
    | inl e ↦ absurd (ne (==→eq j i e))
    | inr e ↦ rw e
  ]

  pub update_self : (f : ℕ → A) (i : ℕ) (v : A) → update f i v i ≡ v
  update_self f i v = rw ((==_iff i i).1 refl)

  -- Writing a cell that agrees with the old one in `g` does not change what `g` reads.
  pub update_keeps {ℓ'} :
      {B : Type ℓ'} (g : A → B) (f : ℕ → A) (i : ℕ) (x : A)
      → g x ≡ g (f i)
      → (j : ℕ) → g (update f i x j) ≡ g (f j)
  update_keeps g f i x h j = elim (Bool-cases (j == i)) [
    | inl e ↦ rw e (h ∙ ap (λ k. g (f k)) (sym (==→eq j i e)))
    | inr e ↦ rw e refl
  ]

  -- The `k` cells from `t` on.
  abbrev pub span : (ℕ → A) → ℕ → ℕ → ℕ → List A
  span f n t zero = []
  span f n t (suc k) = f t ∷ span f n ((t + 1) % n) k

  -- The cell behind a stretch extends it.
  pub span-suc :
      (f : ℕ → A) (n t k : ℕ) → t < n → span f n t (suc k) ≡ span f n t k ++ (f (at n t k) ∷ [])
  span-suc f n t zero h =
      ap (λ x. f x ∷ []) (sym (mod-eq_of_lt (omega arith)) ∙ ap (λ x. x % n) (omega arith))
  span-suc f n t (suc k) h =
      ap (λ x. f t ∷ x)
        (span-suc f n ((t + 1) % n) k (mod-lt (t + 1) (omega arith))
          ∙ ap (λ x. span f n ((t + 1) % n) k ++ (f x ∷ []))
              (at-step n t k ∙ ap (at n t) (omega arith)))

  -- A write outside a stretch does not show in it.
  pub span-update :
      (f : ℕ → A) (n t k j : ℕ) (v : A)
      → ((i : ℕ) → i < k → at n t i ≢ j)
      → t < n
      → span (update f j v) n t k ≡ span f n t k
  span-update f n t zero j v h ht = refl
  span-update f n t (suc k) j v h ht =
      ap₂ ◌∷◌ (update-ne f j t v (λ e. h 0 (omega arith) (at-zero n t ht ∙ e))) (
        span-update f n ((t + 1) % n) k j v
          (λ i hi e. h (i + 1) (omega arith) (sym (at-step n t i) ∙ e))
          (mod-lt (t + 1) (omega arith)))
