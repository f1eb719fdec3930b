-- ===== src/Token/Count.antt =====
-- How many ids below a bound are in use.
use mt.Common.{ℕ, zero, suc, ◌+◌, ◌≤◌, ◌<◌, ◌≡◌, ◌≢◌, refl, ap, arith, Option, none, some}
use mt.Common.Slots.{is_set}
use native.Mathlib.Decide.{dec_lt}

abbrev pub in_use : (ℕ → Option ℕ) → ℕ → ℕ
in_use f zero = 0
in_use f (suc n) = in_use f n + is_set (f n)

pub in_use-same :
    (f g : ℕ → Option ℕ) (n : ℕ) → ((i : ℕ) → i < n → g i ≡ f i) → in_use g n ≡ in_use f n
in_use-same f g zero h = refl
in_use-same f g (suc n) h =
    omega (arith, in_use-same f g n (λ i l. h i (omega arith)), ap is_set (h n (omega arith)))

pub in_use_change :
    (f g : ℕ → Option ℕ) (t n : ℕ)
    → t < n
    → ((i : ℕ) → i ≢ t → g i ≡ f i)
    → in_use g n + is_set (f t) ≡ in_use f n + is_set (g t)
in_use_change f g t zero h e = absurd (omega arith)
in_use_change f g t (suc n) h e = elim (dec_lt t n) [
  | yes p ↦ omega (arith, in_use_change f g t n p e, ap is_set (e n (omega arith)))
  | no p ↦
      let last : t ≡ n = omega arith in
      let before = in_use-same f g n (λ i l. e i (omega arith)) in
      omega (arith, before, ap (λ x. is_set (f x)) last, ap (λ x. is_set (g x)) last)
]

is_set-le-one : (o : Option ℕ) → is_set o ≤ 1
is_set-le-one none = omega arith
is_set-le-one (some x) = omega arith

in_use-none : (f : ℕ → Option ℕ) (n : ℕ) → ((i : ℕ) → i < n → f i ≡ none) → in_use f n ≡ 0
in_use-none f zero h = refl
in_use-none f (suc n) h =
    omega (arith, in_use-none f n (λ i l. h i (omega arith)), ap is_set (h n (omega arith)))

-- Ids from `a` on only.
pub in_use-le : (f : ℕ → Option ℕ) (a b : ℕ) → ((i : ℕ) → i < a → f i ≡ none) → in_use f (a + b) ≤ b
in_use-le f a zero h =
    let same : a + 0 ≡ a = omega arith in omega (arith, ap (in_use f) same, in_use-none f a h)
in_use-le f a (suc b) h =
    let next : a + suc b ≡ suc (a + b) = omega arith in
    omega (arith, ap (in_use f) next, in_use-le f a b h, is_set-le-one (f (a + b)))
