-- ===== src/Sar/Cover.antt =====
-- The limits of all ranges, as the driver sets them.
use mt.Common.{
  ℕ, ◌+◌, ◌%◌, ◌≡◌, refl, sym, arith, Bool, Option, none, some, List, [], ◌∷◌, if◌then◌else◌,
  length,
}
use mt.Common.Signed.{min8}
use mt.Sar.{AcpiSar, Res, ok, err, outside, then_with}
use mt.Sar.Outcome.{Yields, OrNull}
use mt.Sar.Tables.{DynFits, IsSar}
use mt.Sar.Caps.{IsLeast, caps, min8-IsLeast, range_pwr-IsLeast}
use mt.Sar.Limit.{
  Region, Range, RangePower, sar_freq_ranges, range_pwr, cons_res, limit_one, limit_all,
  init_acpi_sar_power, limit_by,
}

-- The range `i`, of power `p` before: it is the least of `p`, or 127 for the default, and of the
-- limits of the tables. A range that is not in use is left alone.
abbrev pub Limited : AcpiSar → List ℕ → Region → Bool → ℕ → Option Range → ℕ → RangePower → Type 0
Limited s t region set_default i none p f = (f.range ≡ none) × (f.power ≡ p)
Limited s t region set_default i (some r) p f =
    (f.range ≡ some r)
    × IsLeast f.power ((if set_default then 127 else p) ∷ caps s t region r (i % 256))

abbrev pub AllLimited :
    AcpiSar → List ℕ → Region → Bool → ℕ → List Range → List RangePower → List RangePower → Type 0
AllLimited s t region set_default i [] fs gs = gs ≡ fs
AllLimited s t region set_default i (r ∷ rs) [] gs = ⊥
AllLimited s t region set_default i (r ∷ rs) (f ∷ fs) [] = ⊥
AllLimited s t region set_default i (r ∷ rs) (f ∷ fs) (g ∷ gs) =
    Limited s t region set_default i (if set_default then some r else f.range) f.power g
    × AllLimited s t region set_default (i + 1) rs fs gs

abbrev pub Covered :
    AcpiSar → Region → Bool → List RangePower → Option (List ℕ) → List RangePower → Type 0
Covered s region set_default fs none gs = gs ≡ fs
Covered s region set_default fs (some t) gs =
    AllLimited s t region set_default 0 sar_freq_ranges fs gs

limit_one-Limited :
    (s : AcpiSar) (t : List ℕ) (region : Region) (b : Bool) (i : ℕ) (o : Option Range) (p : ℕ)
    → IsSar s
    → DynFits s.ver t
    → Yields (Limited s t region b i o p) (limit_one s t region b i o p)
unfolding limit_one
limit_one-Limited s t region b i none p w h = (refl, refl)
limit_one-Limited s t region b i (some r) p w h =
    step (range_pwr s t region r (i % 256)) (range_pwr-IsLeast s t region r (i % 256) w h)
  where
    step :
        (q : Res ℕ)
        → Yields (λ x. IsLeast x (caps s t region r (i % 256))) q
        → Yields (Limited s t region b i (some r) p) (
            then_with q
              (λ x. ok (record { range = some r; power = min8 (if b then 127 else p) x })))
    step (ok x) g = (refl, min8-IsLeast (if b then 127 else p) x _ g)
    step (err e) g = absurd g
    step outside g = absurd g

limit_all-Limited :
    (s : AcpiSar) (t : List ℕ) (region : Region) (b : Bool) (i : ℕ) (rs : List Range)
    (fs : List RangePower)
    → IsSar s
    → DynFits s.ver t
    → length rs ≡ length fs
    → Yields (AllLimited s t region b i rs fs) (limit_all s t region b i rs fs)
unfolding limit_all
limit_all-Limited s t region b i [] fs w h l = refl
limit_all-Limited s t region b i (r ∷ rs) [] w h l = ground (arith, l)
limit_all-Limited s t region b i (r ∷ rs) (f ∷ fs) w h l =
    step (limit_one s t region b i (if b then some r else f.range) f.power) _
      (limit_one-Limited s t region b i (if b then some r else f.range) f.power w h)
      (limit_all-Limited s t region b (i + 1) rs fs w h (omega (arith, l)))
  where
    step :
        (x : Res RangePower) (y : Res (List RangePower))
        → Yields (Limited s t region b i (if b then some r else f.range) f.power) x
        → Yields (AllLimited s t region b (i + 1) rs fs) y
        → Yields (AllLimited s t region b i (r ∷ rs) (f ∷ fs)) (then_with x (λ g. cons_res g y))
    step (ok g) (ok gs) p q = (p, q)
    step (ok g) (err e) p q = absurd q
    step (ok g) outside p q = absurd q
    step (err e) y p q = absurd p
    step outside y p q = absurd p

-- The limits that `s` gives.
pub init_acpi_sar_power-Covered :
    (s : AcpiSar) (region : Region) (b : Bool) (fs : List RangePower)
    → IsSar s
    → length fs ≡ 11
    → Yields (Covered s region b fs s.dyn) (init_acpi_sar_power (some s) region b fs)
unfolding init_acpi_sar_power
init_acpi_sar_power-Covered s region b fs w l = by s.dyn w.dyn_fits
  where
    by :
        (o : Option (List ℕ))
        → OrNull (DynFits s.ver) ⊥ o
        → Yields (Covered s region b fs o) (limit_by region b fs s o)
    by none h = refl
    by (some t) h = limit_all-Limited s t region b 0 sar_freq_ranges fs w h (sym l)
