-- ===== src/Common/Loops.antt =====
-- C loops: a condition, a body and a bound on the rounds, with the rules that their proofs use.
use Prim.Native.Nat.{ℕ, zero, suc, ◌<◌}
use mathlib.Core.Path.{◌≡◌}
use mathlib.Core.Logic.{inl, inr}
use mathlib.Core.Bool.{Bool, true, false}
use native.Mathlib.Omega.{arith}
use mt.Common.Tests.{Bool-cases}

module _ {ℓ} {S : Type ℓ} where
  unfoldable pub while : (rounds : ℕ) → (S → Bool) → (S → S) → S → S
  while zero more round st = st
  while (suc n) more round st = elim (more st) [ false ↦ st | true ↦ while n more round (round st) ]

module _ {ℓ} {S : Type ℓ} (more : S → Bool) (round : S → S) (n : ℕ) (st : S) where
  pub while-true : more st ≡ true → while (suc n) more round st ≡ while n more round (round st)
  unfolding while
  while-true go = ground arith

  pub while-false : more st ≡ false → while (suc n) more round st ≡ st
  unfolding while
  while-false stop = ground arith

-- A quantity that falls in each round and starts below the bound makes the loop end by its own
-- condition; what each round keeps holds at the end.
module _ {ℓ κ} {S : Type ℓ} (Holds : S → Type κ) (size : S → ℕ) (more : S → Bool) (round : S → S)
    (keeps : (st : S)
      → Holds st
      → more st ≡ true
      → Holds (round st) × (size (round st) < size st)) where
  pub while_inv :
      (n : ℕ) (st : S)
      → size st < n
      → Holds st
      → Holds (while n more round st) × (more (while n more round st) ≡ false)
  while_inv zero st small now = absurd (omega arith)
  while_inv (suc n) st small now = elim (Bool-cases (more st)) [
    | inl go ↦
        let (next, less) = keeps st now go in
        rw (while-true more round n st go) (while_inv n (round st) (omega arith) next)
    | inr stop ↦ rw (while-false more round n st stop) (now, stop)
  ]
