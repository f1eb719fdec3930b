-- ===== src/Sar/Limit.antt =====
-- mt792x_acpi_sar.c and mac80211.c: the limit of each range of frequencies, from the tables.
use mt.Common.{ℕ, ◌+◌, ◌*◌, ◌%◌, Bool, Option, none, some, List, [], ◌∷◌, if◌then◌else◌, ◌==◌, leb}
use mt.Common.Signed.{min8, add8}
use mt.Sar.{AcpiSar, Res, ok, err, outside, byte, then_with}

-- dev->region, and the band of a channel.
pub data Region : Type 0 where
  fcc : Region
  etsi : Region
  other_region : Region

pub data Band : Type 0 where
  ghz2 : Band
  ghz5 : Band
  ghz6 : Band
  other_band : Band

-- struct cfg80211_sar_freq_ranges
pub record Range : Type 0 where
  pub start_freq : ℕ
  pub end_freq : ℕ

-- mt76_sar_freq_ranges, the ranges of mt76_sar_capa.
abbrev pub sar_freq_ranges : List Range
sar_freq_ranges =
    record { start_freq = 2402; end_freq = 2494 }
    ∷ record { start_freq = 5150; end_freq = 5350 }
    ∷ record { start_freq = 5350; end_freq = 5470 }
    ∷ record { start_freq = 5470; end_freq = 5725 }
    ∷ record { start_freq = 5725; end_freq = 5950 }
    ∷ record { start_freq = 5945; end_freq = 6165 }
    ∷ record { start_freq = 6165; end_freq = 6405 }
    ∷ record { start_freq = 6405; end_freq = 6525 }
    ∷ record { start_freq = 6525; end_freq = 6705 }
    ∷ record { start_freq = 6705; end_freq = 6865 }
    ∷ record { start_freq = 6865; end_freq = 7125 }
    ∷ []

-- struct mt76_freq_range_power; `power` is an s8.
pub record RangePower : Type 0 where
  pub range : Option Range
  pub power : ℕ

abbrev pub region_row : Region → ℕ
region_row fcc = 0
region_row etsi = 1
region_row other_region = 2

abbrev pub band_column : Band → Option ℕ
band_column ghz2 = some 0
band_column ghz5 = some 1
band_column ghz6 = some 2
band_column other_band = none

-- The place of the limits of row `idx` in the table of the region, and how many bands they have.
abbrev pub geo_start : ℕ → ℕ → ℕ
geo_start ver idx = if ver == 1 then 6 + 5 * idx + 1 else 7 + 7 * idx + 1

abbrev pub geo_max : ℕ → ℕ
geo_max ver = if ver == 1 then 2 else 3

-- mt792x_asar_get_geo_pwr
unfoldable pub geo_pwr_at : ℕ → List ℕ → ℕ → ℕ → Option ℕ → Res ℕ
geo_pwr_at ver t row dyn_power none = ok dyn_power
geo_pwr_at ver t row dyn_power (some idx) =
    if leb (geo_max ver) idx
    then ok dyn_power
    else byte t (geo_start ver row + 2 * idx) (λ geo_power.
      byte t (geo_start ver row + 2 * idx + 1)
        (λ offset. ok (min8 geo_power (add8 dyn_power offset))))

unfoldable pub get_geo_pwr : AcpiSar → Region → Band → ℕ → Res ℕ
get_geo_pwr s region band dyn_power = get s.geo
  where
    get : Option (List ℕ) → Res ℕ
    get none = ok dyn_power
    get (some t) = geo_pwr_at s.ver t (region_row region) dyn_power (band_column band)

abbrev pub band_of : Range → Band
band_of range =
    if leb 5945 range.start_freq then ghz6 else if leb 5150 range.start_freq then ghz5 else ghz2

-- mt792x_asar_range_pwr of the table `t`; `sar_capa` is never NULL.
unfoldable pub range_pwr : AcpiSar → List ℕ → Region → Range → ℕ → Res ℕ
range_pwr s t region range idx =
    if leb (if s.ver == 1 then 5 else 11) idx
    then ok 127
    else byte t ((if s.ver == 1 then 7 else 8) + idx)
        (λ limit. get_geo_pwr s region (band_of range) limit)

-- The loop of mt792x_init_acpi_sar_power, from range `i` on.
abbrev pub cons_res : RangePower → Res (List RangePower) → Res (List RangePower)
cons_res f (ok fs) = ok (f ∷ fs)
cons_res f (err e) = err e
cons_res f outside = outside

unfoldable pub limit_one : AcpiSar → List ℕ → Region → Bool → ℕ → Option Range → ℕ → Res RangePower
limit_one s t region set_default i none power = ok (record { range = none; power = power })
limit_one s t region set_default i (some range) power =
    then_with (range_pwr s t region range (i % 256))
      (λ p. ok (record { range = some range; power = min8 (if set_default then 127 else power) p }))

unfoldable pub limit_all :
    AcpiSar → List ℕ → Region → Bool → ℕ → List Range → List RangePower → Res (List RangePower)
limit_all s t region set_default i [] fs = ok fs
limit_all s t region set_default i (r ∷ rs) [] = outside
limit_all s t region set_default i (r ∷ rs) (f ∷ fs) =
    let rest = limit_all s t region set_default (i + 1) rs fs in
    then_with (limit_one s t region set_default i (if set_default then some r else f.range) f.power)
      (λ g. cons_res g rest)

-- mt792x_init_acpi_sar_power: `phy->acpisar` and its dynamic table may be NULL.
abbrev pub limit_by :
    Region → Bool → List RangePower → AcpiSar → Option (List ℕ) → Res (List RangePower)
limit_by region set_default frp s none = ok frp
limit_by region set_default frp s (some t) = limit_all s t region set_default 0 sar_freq_ranges frp

unfoldable pub init_acpi_sar_power :
    Option AcpiSar → Region → Bool → List RangePower → Res (List RangePower)
init_acpi_sar_power none region set_default frp = ok frp
init_acpi_sar_power (some s) region set_default frp = limit_by region set_default frp s s.dyn
