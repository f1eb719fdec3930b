-- ===== src/Common/Slots.antt =====
-- Arrays of pointers that may be NULL: `slot` reads one, `occupied` counts those that are set.
use Prim.Native.Nat.{ℕ, zero, suc, ◌+◌, ◌≤◌, ◌<◌}
use mathlib.Core.Path.{◌≡◌, refl}
use mathlib.Core.List.{List, [], ◌∷◌, ◌++◌}
use mathlib.Core.Option.{Option, none, some}
use native.Mathlib.Omega.{arith}
use mt.Common.Tests.{◌==◌, if◌then◌else◌}
use mt.Common.Lists.{length, get_or, set, replicate}

module _ {ℓ} {A : Type ℓ} where
  -- A read out of bounds is NULL; the invariants show that none is made.
  abbrev pub slot : List (Option A) → ℕ → Option A
  slot xs i = get_or xs i none

  abbrev pub is_set : Option A → ℕ
  is_set none = 0
  is_set (some _) = 1

  abbrev pub occupied : List (Option A) → ℕ
  occupied [] = 0
  occupied (x ∷ xs) = is_set x + occupied xs

  pub get_or-set :
      (xs : List A) (i j : ℕ) (v d : A)
      → i < length xs
      → get_or (set xs i v) j d ≡ (if i == j then v else get_or xs j d)
  get_or-set [] i j v d h = elim h [ ]
  get_or-set (x ∷ xs) zero zero v d h = refl
  get_or-set (x ∷ xs) zero (suc j) v d h = ground arith
  get_or-set (x ∷ xs) (suc i) zero v d h = ground arith
  get_or-set (x ∷ xs) (suc i) (suc j) v d h = ground (arith, get_or-set xs i j v d)

  -- What a write does to the number of occupied slots.
  pub occupied-set :
      (xs : List (Option A)) (i : ℕ) (v : Option A)
      → i < length xs
      → occupied (set xs i v) + is_set (slot xs i) ≡ occupied xs + is_set v
  occupied-set [] i v h = elim h [ ]
  occupied-set (x ∷ xs) zero v h = omega arith
  occupied-set (x ∷ xs) (suc i) v h = omega (arith, occupied-set xs i v)

  pub occupied-le-length : (xs : List (Option A)) → occupied xs ≤ length xs
  occupied-le-length [] = omega arith
  occupied-le-length (none ∷ xs) = omega (arith, occupied-le-length xs)
  occupied-le-length (some x ∷ xs) = omega (arith, occupied-le-length xs)

  -- A slot that is set lies in bounds and is counted.
  pub slot_in_bounds : (xs : List (Option A)) (i : ℕ) {x : A} → slot xs i ≡ some x → i < length xs
  slot_in_bounds [] i h = absurd (ground arith)
  slot_in_bounds (x ∷ xs) zero h = omega arith
  slot_in_bounds (x ∷ xs) (suc i) h = omega (arith, slot_in_bounds xs i h)

  pub occupied-pos : (xs : List (Option A)) (i : ℕ) {x : A} → slot xs i ≡ some x → 0 < occupied xs
  occupied-pos [] i h = absurd (ground arith)
  occupied-pos (none ∷ xs) zero h = absurd (ground arith)
  occupied-pos (some y ∷ xs) zero h = omega arith
  occupied-pos (x ∷ xs) (suc i) h = omega (arith, occupied-pos xs i h)

  -- With no slot counted, every slot is NULL.
  pub slot_of_occupied-zero : (xs : List (Option A)) (i : ℕ) → occupied xs ≡ 0 → slot xs i ≡ none
  slot_of_occupied-zero [] i h = refl
  slot_of_occupied-zero (none ∷ xs) zero h = refl
  slot_of_occupied-zero (none ∷ xs) (suc i) h = slot_of_occupied-zero xs i (omega arith)
  slot_of_occupied-zero (some x ∷ xs) i h = absurd (omega arith)

  -- The weight of what a slot holds, and of all slots.
  abbrev pub weight : (A → ℕ) → Option A → ℕ
  weight w none = 0
  weight w (some x) = w x

  abbrev pub total : (A → ℕ) → List (Option A) → ℕ
  total w [] = 0
  total w (x ∷ xs) = weight w x + total w xs

  pub total-set :
      (w : A → ℕ) (xs : List (Option A)) (i : ℕ) (v : Option A)
      → i < length xs
      → total w (set xs i v) + weight w (slot xs i) ≡ total w xs + weight w v
  total-set w [] i v h = elim h [ ]
  total-set w (x ∷ xs) zero v h = omega arith
  total-set w (x ∷ xs) (suc i) v h = omega (arith, total-set w xs i v)

  abbrev pub sum_of : (A → ℕ) → List A → ℕ
  sum_of w [] = 0
  sum_of w (x ∷ xs) = w x + sum_of w xs

  pub sum_of-append : (w : A → ℕ) (xs ys : List A) → sum_of w (xs ++ ys) ≡ sum_of w xs + sum_of w ys
  sum_of-append w [] ys = omega arith
  sum_of-append w (x ∷ xs) ys = omega (arith, sum_of-append w xs ys)

  pub total_of_occupied-zero : (w : A → ℕ) (xs : List (Option A)) → occupied xs ≡ 0 → total w xs ≡ 0
  total_of_occupied-zero w [] h = refl
  total_of_occupied-zero w (none ∷ xs) h = omega (arith, total_of_occupied-zero w xs (omega arith))
  total_of_occupied-zero w (some x ∷ xs) h = absurd (omega arith)

  pub occupied_of_none : (xs : List (Option A)) → ((i : ℕ) → slot xs i ≡ none) → occupied xs ≡ 0
  occupied_of_none [] h = refl
  occupied_of_none (none ∷ xs) h = omega (arith, occupied_of_none xs (λ i. h (suc i)))
  occupied_of_none (some x ∷ xs) h = absurd (let e = h 0 in cc)

  pub slot_out_of_bounds : (xs : List (Option A)) (i : ℕ) → length xs ≤ i → slot xs i ≡ none
  slot_out_of_bounds [] i h = refl
  slot_out_of_bounds (x ∷ xs) zero h = absurd (omega arith)
  slot_out_of_bounds (x ∷ xs) (suc i) h = slot_out_of_bounds xs i (omega arith)

  pub slot-replicate : (n i : ℕ) → slot (replicate n none) i ≡ none
  slot-replicate zero i = refl
  slot-replicate (suc n) zero = refl
  slot-replicate (suc n) (suc i) = slot-replicate n i
