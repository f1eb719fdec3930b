-- ===== src/Sar/Tests.antt =====
-- Runs and examples of the tables of power limits.
use mt.Common.{
  Bool, true, Option, false, ℕ, arith, ◌≡◌, refl, true, none, some, List, [], ◌∷◌, map, replicate,
}
use mt.Sar.{
  integer, Answer, elements, Acpi, Method, mtcl, mtds, mtgs, mtfg, Res, ok, err, outside, bytes_of,
  read_answer, acpi_read, read_mtcl, check_mtds, read_mtds, check_mtgs, read_mtgs, read_mtfg,
  AcpiSar, init_acpi_sar,
}
use mt.Sar.Outcome.{Outcome, Yields}
use mt.Sar.Tables.{IsShort}
use mt.Sar.Limit.{
  etsi, RangePower, geo_pwr_at, get_geo_pwr, range_pwr, limit_one, limit_all, init_acpi_sar_power,
}
use mt.Sar.Cover.{Covered}
use mt.Sar.Specs.{SubSpec, specified, apply_specs, init_sar_power, set_tx_sar_pwr}
use mt.Sar.Country.{
  get_mtcl_conf, acpi_get_flags, flags_from, conf_with, parse_mtcl_tbl_v3, index_of, tbl_at,
  get_mtcl_map,
}
use mt.Sar.Told.{ConfTold, FlagsTold}
use mt.Sar.Asked.{get_sar_power, AllPowers}
use mt.Sar.Obeyed.{Asked, limits_cover}

-- A machine of version 1: one row of dynamic limits, and three regions.
abbrev numbers : List ℕ → Answer
numbers xs = elements (map integer xs)

abbrev tables : Method → Answer
tables mtcl = numbers (77 ∷ 84 ∷ 67 ∷ 76 ∷ 1 ∷ 1 ∷ replicate 13 129)
tables mtds = numbers (77 ∷ 84 ∷ 68 ∷ 83 ∷ 1 ∷ 1 ∷ 0 ∷ 30 ∷ 28 ∷ 26 ∷ 24 ∷ 22 ∷ [])
tables mtgs = numbers (
    77 ∷ 84 ∷ 71 ∷ 83 ∷ 1 ∷ 3 ∷ 0 ∷ 40 ∷ 0 ∷ 40 ∷ 0 ∷ 1 ∷ 33 ∷ 254 ∷ 27 ∷ 4 ∷ 2 ∷ 40 ∷ 0 ∷ 40 ∷ 0
    ∷ [])
tables mtfg = numbers (77 ∷ 84 ∷ 70 ∷ 71 ∷ 1 ∷ 0 ∷ 2 ∷ 0 ∷ 4 ∷ 1 ∷ [])

abbrev machine : Acpi
machine = record { has_root = true; answer = tables; alloc = λ m. true; alloc_sar = true }

abbrev unset : List RangePower
unset = replicate 11 (record { range = none; power = 0 })

abbrev powers : List RangePower → List ℕ
powers fs = map (λ f. f.power) fs

abbrev powers_of : Res (List RangePower) → List ℕ
powers_of (ok fs) = powers fs
powers_of (err e) = []
powers_of outside = []

abbrev result : List ℕ
result = after (init_acpi_sar machine)
  where
    after : Res AcpiSar → List ℕ
    after (ok s) = powers_of (init_acpi_sar_power (some s) etsi true unset)
    after (err e) = []
    after outside = []

-- 30 - 2 is below 33; 27 is below 28 + 4, 26 + 4 and 24 + 4; 22 + 4 is below 27; and the table has
-- no more.
limits_in_europe : result ≡ 28 ∷ 27 ∷ 27 ∷ 27 ∷ 26 ∷ 127 ∷ 127 ∷ 127 ∷ 127 ∷ 127 ∷ 127 ∷ []
unfolding init_acpi_sar read_mtcl read_mtds read_mtgs read_mtfg check_mtds check_mtgs acpi_read
    read_answer bytes_of init_acpi_sar_power limit_all limit_one range_pwr get_geo_pwr geo_pwr_at
limits_in_europe = refl

-- The user allows 20 (in half dBm) on the second range, and too much on the third.
abbrev wishes : Option (Bool × List SubSpec)
wishes = some (
  true,
  record { freq_range_index = 1; power = 40 } ∷ record { freq_range_index = 2; power = 1000 } ∷ [],
)

abbrev wished : List ℕ
wished = after (init_acpi_sar machine)
  where
    after : Res AcpiSar → List ℕ
    after (ok s) = powers_of (set_tx_sar_pwr s etsi wishes unset)
    after (err e) = []
    after outside = []

wished_in_europe : wished ≡ 0 ∷ 20 ∷ 27 ∷ replicate 8 0
unfolding init_acpi_sar read_mtcl read_mtds read_mtgs read_mtfg check_mtds check_mtgs acpi_read
    read_answer bytes_of init_acpi_sar_power limit_all limit_one range_pwr get_geo_pwr geo_pwr_at
    set_tx_sar_pwr init_sar_power apply_specs
wished_in_europe = refl

abbrev told_of : (Option AcpiSar → Res ℕ) → Res ℕ
told_of f = after (init_acpi_sar machine)
  where
    after : Res AcpiSar → Res ℕ
    after (ok s) = f (some s)
    after (err e) = err e
    after outside = outside

-- The flags 4 and 1; no country but the first of a row, and the last, has its bit.
flags_here : told_of acpi_get_flags ≡ ok 7
unfolding init_acpi_sar read_mtcl read_mtds read_mtgs read_mtfg check_mtds check_mtgs acpi_read
    read_answer bytes_of acpi_get_flags flags_from
flags_here = refl

conf_here :
    (told_of (λ s. get_mtcl_conf s 0x3030) ≡ ok 36)
    × (told_of (λ s. get_mtcl_conf s 0x4555) ≡ ok 32)
unfolding init_acpi_sar read_mtcl read_mtds read_mtgs read_mtfg check_mtds check_mtgs acpi_read
    read_answer bytes_of get_mtcl_conf conf_with parse_mtcl_tbl_v3 index_of tbl_at get_mtcl_map
conf_here = (refl, refl)

limits_cover_example :
    Outcome
      (λ s.
        Yields
          (λ gs.
            Covered s etsi false (specified wishes unset) s.dyn gs
            × Asked s etsi s.dyn gs 5180 60 (get_sar_power (some gs) 5180 60))
          (set_tx_sar_pwr s etsi wishes unset)
        × ConfTold s.countrylist s.ver (get_mtcl_conf (some s) 0x5553)
        × FlagsTold s.fg (acpi_get_flags (some s)))
      (IsShort machine)
      (init_acpi_sar machine)
limits_cover_example =
    limits_cover machine etsi wishes unset 5180 60 0x5553 (refl, omega arith, omega arith) refl
      powers_unset
  where
    powers_unset : AllPowers unset
    powers_unset = omega arith
