-- ===== src/Sar/Specs.antt =====
-- mac80211.c, mt76_init_sar_power, and mt7902/main.c, mt7921_set_tx_sar_pwr: the limits that the user
-- specifies, and then those of the tables.
use mt.Common.{
  ℕ, zero, suc, ◌+◌, ◌/◌, ◌%◌, ◌<◌, ◌≡◌, refl, ◌∙◌, ap, arith, Bool, true, false, not, Option, none,
  some, List, [], ◌∷◌, if◌then◌else◌, ltb, length, length-set, get_elem?, set,
}
use native.Mathlib.Nat.{mod-lt}
use mt.Sar.{AcpiSar, Res, ok, err, outside, einval, then_with}
use mt.Sar.Limit.{Region, Range, RangePower, sar_freq_ranges, init_acpi_sar_power}
use mt.Sar.Asked.{clamp, AllPowers}

-- struct cfg80211_sar_sub_specs: the index of a range, and a power, an s32, in quarters of a dBm.
pub record SubSpec : Type 0 where
  pub freq_range_index : ℕ
  pub power : ℕ

-- `power >> 1` on an s32
abbrev pub halve : ℕ → ℕ
halve p = if ltb p 2147483648 then p / 2 else 2147483648 + p / 2

-- The loop of mt76_init_sar_power; an index without a range is beyond the arrays.
abbrev pub apply_with : ℕ → ℕ → List RangePower → Option Range → Res (List RangePower)
apply_with i power frp none = outside
apply_with i power frp (some r) = ok (set frp i (record { range = some r; power = power }))

unfoldable pub apply_specs : List SubSpec → List RangePower → Res (List RangePower)
apply_specs [] frp = ok frp
apply_specs (x ∷ xs) frp =
    then_with
      (apply_with x.freq_range_index (clamp (halve x.power) % 256) frp
        (get_elem? sar_freq_ranges x.freq_range_index))
      (λ g. apply_specs xs g)

-- mt76_init_sar_power; `is_power` says that the type is NL80211_SAR_TYPE_POWER.
unfoldable pub init_sar_power : Bool → List SubSpec → List RangePower → Res (List RangePower)
init_sar_power is_power [] frp = err einval
init_sar_power is_power (x ∷ xs) frp = if not is_power then err einval else apply_specs (x ∷ xs) frp

-- mt7921_set_tx_sar_pwr, without the message to the firmware at its end.
unfoldable pub set_tx_sar_pwr :
    AcpiSar → Region → Option (Bool × List SubSpec) → List RangePower → Res (List RangePower)
set_tx_sar_pwr s region none frp = init_acpi_sar_power (some s) region true frp
set_tx_sar_pwr s region (some (is_power, specs)) frp =
    then_with (init_sar_power is_power specs frp) (λ g. init_acpi_sar_power (some s) region false g)

-- Specifications of powers: one at least, and each of a range.
abbrev pub AllRanges : List SubSpec → Type 0
AllRanges [] = Unit {0}
AllRanges (x ∷ xs) = (x.freq_range_index < 11) × AllRanges xs

abbrev pub IsSpecs : Option (Bool × List SubSpec) → Type 0
IsSpecs none = Unit {0}
IsSpecs (some (b, xs)) = (b ≡ true) × (0 < length xs) × AllRanges xs

-- The ranges with what the user specifies: the last specification of a range counts.
abbrev pub specify : List SubSpec → List RangePower → List RangePower
specify [] frp = frp
specify (x ∷ xs) frp = specify xs (
    set frp x.freq_range_index (record {
      range = get_elem? sar_freq_ranges x.freq_range_index;
      power = clamp (halve x.power) % 256;
    }))

abbrev pub specified : Option (Bool × List SubSpec) → List RangePower → List RangePower
specified none frp = frp
specified (some (b, xs)) frp = specify xs frp

abbrev pub is_default : Option (Bool × List SubSpec) → Bool
is_default none = true
is_default (some x) = false

apply_with-set :
    (i p : ℕ) (frp : List RangePower) (o : Option Range)
    → (o ≡ none → ⊥)
    → apply_with i p frp o ≡ ok (set frp i (record { range = o; power = p }))
apply_with-set i p frp none h = absurd (h refl)
apply_with-set i p frp (some r) h = refl

get_elem?-none : (xs : List Range) (i : ℕ) → i < length xs → get_elem? xs i ≡ none → ⊥
get_elem?-none [] i h e = elim h [ ]
get_elem?-none (x ∷ xs) zero h e = ground (arith, e)
get_elem?-none (x ∷ xs) (suc i) h e = get_elem?-none xs i (omega (arith, h)) e

apply_specs-specify :
    (xs : List SubSpec) (frp : List RangePower)
    → AllRanges xs
    → apply_specs xs frp ≡ ok (specify xs frp)
unfolding apply_specs
apply_specs-specify [] frp h = refl
apply_specs-specify (x ∷ xs) frp h =
    let i = x.freq_range_index in
    ap (λ r. then_with r (λ g. apply_specs xs g))
      (apply_with-set i (clamp (halve x.power) % 256) frp (get_elem? sar_freq_ranges i)
        (get_elem?-none sar_freq_ranges i h.0))
    ∙ apply_specs-specify xs _ h.1

set-AllPowers :
    (fs : List RangePower) (i : ℕ) (f : RangePower)
    → AllPowers fs
    → f.power < 256
    → AllPowers (set fs i f)
set-AllPowers [] i f h l = tt
set-AllPowers (x ∷ fs) zero f h l = (l, h.1)
set-AllPowers (x ∷ fs) (suc i) f h l = (h.0, set-AllPowers fs i f h.1 l)

specify-AllPowers :
    (xs : List SubSpec) (fs : List RangePower) → AllPowers fs → AllPowers (specify xs fs)
specify-AllPowers [] fs h = h
specify-AllPowers (x ∷ xs) fs h =
    specify-AllPowers xs _
      (set-AllPowers fs x.freq_range_index _ h (mod-lt (clamp (halve x.power)) (omega arith)))

length-specify : (xs : List SubSpec) (fs : List RangePower) → length (specify xs fs) ≡ length fs
length-specify [] fs = refl
length-specify (x ∷ xs) fs = length-specify xs _ ∙ length-set fs x.freq_range_index _

pub specified-AllPowers :
    (o : Option (Bool × List SubSpec)) (fs : List RangePower)
    → AllPowers fs
    → AllPowers (specified o fs)
specified-AllPowers none fs h = h
specified-AllPowers (some (b, xs)) fs h = specify-AllPowers xs fs h

pub length-specified :
    (o : Option (Bool × List SubSpec)) (fs : List RangePower) → length (specified o fs) ≡ length fs
length-specified none fs = refl
length-specified (some (b, xs)) fs = length-specify xs fs

pub set_tx_sar_pwr-specified :
    (s : AcpiSar) (region : Region) (o : Option (Bool × List SubSpec)) (fs : List RangePower)
    → IsSpecs o
    → set_tx_sar_pwr s region o fs
      ≡ init_acpi_sar_power (some s) region (is_default o) (specified o fs)
unfolding set_tx_sar_pwr init_sar_power
set_tx_sar_pwr-specified s region none fs h = refl
set_tx_sar_pwr-specified s region (some (b, [])) fs h = ground (arith, h.1)
set_tx_sar_pwr-specified s region (some (true, x ∷ xs)) fs h =
    ap (λ r. then_with r (λ g. init_acpi_sar_power (some s) region false g))
      (apply_specs-specify (x ∷ xs) fs h.2)
set_tx_sar_pwr-specified s region (some (false, x ∷ xs)) fs h = ground (arith, h.0)
