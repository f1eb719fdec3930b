-- ===== src/Aggr/Circle.antt =====
-- Sequence numbers on the circle of 4096, and the slot `sn % size` that a number falls into.
use native.Mathlib.Nat.{
  mod-eq_of_lt, mod-eq-sub-mod, mod-mod_of_dvd, dvd_of_mod-eq-zero, mod-add-mod, mod-lt,
}
use native.Mathlib.Decide.{dec_lt}
use mt.Common.{◌≤◌, ℕ, ◌+◌, ◌-◌, ◌%◌, ◌<◌, ◌≡◌, ◌≢◌, sym, ◌∙◌, ap, arith}
use mt.Kernel.Seq.{ahead}

-- Adding less than the modulus to a residue comes back to it only by adding nothing.
add-mod-inj : (r d m : ℕ) → r < m → d < m → (r + d) % m ≡ r → d ≡ 0
add-mod-inj r d m hr hd e = elim (dec_lt (r + d) m) [
  | yes p ↦ omega (arith, mod-eq_of_lt p)
  | no p ↦ omega (
    arith,
    mod-eq-sub-mod {n = r + d} {m = m} (omega arith),
    mod-eq_of_lt {n = r + d - m} {m = m} (omega arith),
  )
]

-- Where the size divides 4096, two numbers less than a window apart share a slot only if equal.
pub same_slot :
    (size h s : ℕ)
    → 4096 % size ≡ 0
    → 0 < size
    → h < 4096
    → s < 4096
    → ahead h s < size
    → s % size ≡ h % size
    → s ≡ h
same_slot size h s hd h0 hh hs ha e =
    let zero_apart : ahead h s ≡ 0 = add-mod-inj (h % size) (ahead h s) size (mod-lt h h0) ha (
      mod-add-mod h size (ahead h s)
      ∙ (sym (mod-mod_of_dvd size (h + ahead h s) (dvd_of_mod-eq-zero size hd))
          ∙ (ap (λ x. x % size) shifted ∙ e))) in
    omega arith
  where
    shifted : (h + ahead h s) % 4096 ≡ s
    shifted = omega arith

-- One step of the head brings every other number one nearer.
pub ahead-step : (h s : ℕ) → h < 4096 → s < 4096 → s ≢ h → ahead ((h + 1) % 4096) s + 1 ≡ ahead h s
ahead-step h s hh hs e = omega arith

-- So two numbers inside one window that share a slot are equal.
pub same_slot_in_window :
    (size h a b : ℕ)
    → 4096 % size ≡ 0
    → 0 < size
    → size ≤ 4096
    → a < 4096
    → b < 4096
    → ahead h a < size
    → ahead h b < size
    → a % size ≡ b % size
    → a ≡ b
same_slot_in_window size h a b hd h0 hs ha hb wa wb e = elim (dec_lt (ahead h a) (ahead h b)) [
  | yes p ↦ sym (same_slot size a b hd h0 ha hb (omega arith) (sym e))
  | no p ↦ same_slot size b a hd h0 hb ha (omega arith) e
]
