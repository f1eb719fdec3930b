-- ===== src/Sar/Obeyed.antt =====
-- The limits hold for whatever is asked: from the firmware's tables to mt76_get_sar_power.
use mt.Common.{
  ℕ, ◌∙◌, subst, true, false, ◌<◌, ◌+◌, ◌%◌, ◌≤◌, ◌≡◌, refl, sym, arith, Bool, Option, none, some,
  List, [], ◌∷◌, if◌then◌else◌, length,
}
use mt.Common.Signed.{min32, rank32, extend, min32-left}
use mt.Sar.{AcpiSar, Acpi, Res, ok, err, outside, init_acpi_sar}
use mt.Sar.Outcome.{map-Reads, AllBytes, Outcome, Yields, OrNull}
use mt.Sar.Tables.{DynFits, IsSar, IsShort, init_acpi_sar-IsSar}
use mt.Sar.Caps.{caps}
use mt.Sar.Limit.{Region, Range, RangePower, sar_freq_ranges, init_acpi_sar_power}
use mt.Sar.Cover.{Limited, AllLimited, Covered, init_acpi_sar_power-Covered}
use mt.Sar.Specs.{
  SubSpec, IsSpecs, specified, is_default, set_tx_sar_pwr, specified-AllPowers, length-specified,
  set_tx_sar_pwr-specified,
}
use mt.Sar.Country.{get_mtcl_conf, acpi_get_flags}
use mt.Sar.Told.{ConfTold, FlagsTold, get_mtcl_conf-Told, acpi_get_flags-Told}
use mt.Sar.Asked.{
  clamp, in_range, first_range, get_sar_power, AllPowers, UnderAll, caps_of, Choose, Obeys,
  first_range_le, caps-AllBytes, IsIn-byte, least-UnderAll,
}

no_range : {A : Type 0} (freq : ℕ) (o : Option Range) → o ≡ none → in_range freq o ≡ true → A
no_range freq none e h = ground (arith, h)
no_range freq (some r) e h = ground (arith, e)

-- What AllLimited says of one range is enough for a power asked in it.
Limited-UnderAll :
    (s : AcpiSar) (t : List ℕ) (region : Region) (b : Bool) (i : ℕ) (o : Option Range)
    (p freq q : ℕ) (g : RangePower)
    → IsSar s
    → AllBytes t
    → p < 256
    → Limited s t region b i o p g
    → in_range freq g.range ≡ true
    → rank32 q ≤ rank32 (extend g.power)
    → UnderAll q (caps_of s t region i g.range)
Limited-UnderAll s t region b i none p freq q g w h pb (e, k) inside le =
    no_range freq g.range e inside
Limited-UnderAll s t region b i (some r) p freq q g w h pb (e, least) inside le =
    let c = caps s t region r (i % 256) in
    let a = caps-AllBytes s t region r (i % 256) w h in
    subst (λ o. UnderAll q (caps_of s t region i o)) (sym e)
      (least-UnderAll q g.power c le
        (IsIn-byte g.power ((if b then 127 else p) ∷ c) least.0 (start_byte b p pb, a)) least.1.1 a)
  where
    start_byte : (b : Bool) (p : ℕ) → p < 256 → (if b then 127 else p) < 256
    start_byte true p h = omega arith
    start_byte false p h = h

all-Obeys :
    (s : AcpiSar) (t : List ℕ) (region : Region) (b : Bool) (i : ℕ) (rs : List Range)
    (fs gs : List RangePower) (freq p : ℕ)
    → IsSar s
    → AllBytes t
    → AllPowers fs
    → length rs ≡ length fs
    → AllLimited s t region b i rs fs gs
    → Obeys s t region freq i gs (first_range freq gs p)
unfolding first_range
all-Obeys s t region b i [] [] gs freq p w h a l c =
    subst (λ gs. Obeys s t region freq i gs (first_range freq gs p)) (sym c) tt
all-Obeys s t region b i [] (f ∷ fs) gs freq p w h a l c = ground (arith, l)
all-Obeys s t region b i (r ∷ rs) [] gs freq p w h a l c = absurd c
all-Obeys s t region b i (r ∷ rs) (f ∷ fs) [] freq p w h a l c = absurd c
all-Obeys s t region b i (r ∷ rs) (f ∷ fs) (g ∷ gs) freq p w h a l c =
    step (in_range freq g.range) refl
      (all-Obeys s t region b (i + 1) rs fs gs freq p w h a.1 (omega (arith, l)) c.1)
  where
    step :
        (k : Bool)
        → in_range freq g.range ≡ k
        → Obeys s t region freq (i + 1) gs (first_range freq gs p)
        → let q = if k then min32 (extend g.power) p else first_range freq gs p in
          Choose k (UnderAll q (caps_of s t region i g.range)) (Obeys s t region freq (i + 1) gs q)
    step true e rest =
        Limited-UnderAll s t region b i (if b then some r else f.range) f.power freq _ g w h a.0 c.0
          e (min32-left (extend g.power) p)
    step false e rest = rest

-- The power `q` that comes of `p`.
abbrev pub Asked : AcpiSar → Region → Option (List ℕ) → List RangePower → ℕ → ℕ → ℕ → Type 0
Asked s region none gs freq p q = rank32 q ≤ rank32 (clamp p)
Asked s region (some t) gs freq p q = (rank32 q ≤ rank32 (clamp p)) × Obeys s t region freq 0 gs q

Covered-Asked :
    (s : AcpiSar) (region : Region) (b : Bool) (fs gs : List RangePower) (freq p : ℕ)
    (o : Option (List ℕ))
    → IsSar s
    → OrNull (DynFits s.ver) ⊥ o
    → AllPowers fs
    → length fs ≡ 11
    → Covered s region b fs o gs
    → Asked s region o gs freq p (get_sar_power (some gs) freq p)
unfolding get_sar_power
Covered-Asked s region b fs gs freq p none w d a l c = first_range_le freq gs (clamp p)
Covered-Asked s region b fs gs freq p (some t) w d a l c = (
  first_range_le freq gs (clamp p),
  all-Obeys s t region b 0 sar_freq_ranges fs gs freq (clamp p) w d.1 a (sym l) c,
)

map-Outcome :
    {A : Type 0} (P R : A → Type 0) (Q : Type 0) (r : Res A)
    → ((x : A) → P x → R x)
    → Outcome P Q r
    → Outcome R Q r
map-Outcome P R Q (ok x) f h = f x h
map-Outcome P R Q (err e) f h = tt
map-Outcome P R Q outside f h = h

-- Whatever the firmware of the machine answers, mt792x_init_acpi_sar reads beyond a table only if
-- MTDS has exactly four elements. If it gives tables, then mt7921_set_tx_sar_pwr, without
-- specifications or with powers for some of the eleven ranges, sets the limits with no read beyond a
-- table, for each region: without a table of dynamic limits they are as they were but for the
-- specifications, of which the last of a range counts, and with one the power of each range in use is
-- the least, as s8, of its power by then (127 without specifications) and of what the tables say of
-- the range: its dynamic limit, if the table's rows reach to it; and where the geographic table has
-- the band of the range, the region's limit and, in place of the dynamic one, its sum in eight bits
-- with the region's offset. Then whatever power is asked for at whatever frequency, what
-- mt76_get_sar_power makes of it with those limits is not above the power asked for, which counts as 127 if it is not
-- between -127 and 127, nor, with a table of dynamic limits, above anything that the tables say of
-- the first range in use that has the frequency. Then also mt792x_acpi_get_mtcl_conf says all bits if
-- there is no country list, and with one gives six bits, unless a list of 19 bytes calls itself one
-- of version 3 and is read beyond its end; and mt792x_acpi_get_flags, if the table has as many flags
-- as it says, tells which of 1 and 4 are among them, and else reads beyond it.
pub limits_cover :
    (a : Acpi) (region : Region) (specs : Option (Bool × List SubSpec)) (fs : List RangePower)
    (freq p code : ℕ)
    → IsSpecs specs
    → length fs ≡ 11
    → AllPowers fs
    → Outcome
        (λ s.
          Yields
            (λ gs.
              Covered s region (is_default specs) (specified specs fs) s.dyn gs
              × Asked s region s.dyn gs freq p (get_sar_power (some gs) freq p))
            (set_tx_sar_pwr s region specs fs)
          × ConfTold s.countrylist s.ver (get_mtcl_conf (some s) code)
          × FlagsTold s.fg (acpi_get_flags (some s)))
        (IsShort a)
        (init_acpi_sar a)
limits_cover a region o fs freq p code k l h =
    map-Outcome IsSar _ _ (init_acpi_sar a)
      (λ s w.
        let b = is_default o in
        let hs = specified o fs in
        let n = length-specified o fs ∙ l in
        (
          subst
              (Yields (λ gs.
                Covered s region b hs s.dyn gs
                × Asked s region s.dyn gs freq p (get_sar_power (some gs) freq p)))
              (sym (set_tx_sar_pwr-specified s region o fs k))
              (map-Reads (Covered s region b hs s.dyn) _ ⊥ ⊥
                (init_acpi_sar_power (some s) region b hs)
                (λ gs c. (
                  c,
                  Covered-Asked s region b hs gs freq p s.dyn w w.dyn_fits
                      (specified-AllPowers o fs h) n c,
                ))
                (λ z. z) (init_acpi_sar_power-Covered s region b hs w n)),
          get_mtcl_conf-Told s code w,
          acpi_get_flags-Told s w,
        ))
      (init_acpi_sar-IsSar a)
