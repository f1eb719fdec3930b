-- ===== src/Sar/Asked.antt =====
-- mac80211.c, mt76_get_sar_power: what the limits make of a power that is asked for.
use mt.Common.{
  ℕ, zero, suc, ◌+◌, ◌*◌, ◌%◌, ◌≤◌, ◌<◌, ◌≡◌, arith, Bool, true, false, ◌&&◌, ◌||◌, Option, none,
  some, List, [], ◌∷◌, if◌then◌else◌, ◌==◌, ltb, leb, get_or, Bool-cases, inl, inr,
}
use mt.Common.Signed.{rank8, rank32, min32, extend, extend_rank, min32-right}
use native.Mathlib.Nat.{mod-lt}
use mt.Sar.{AcpiSar}
use mt.Sar.Outcome.{AllBytes, OrNull}
use mt.Sar.Tables.{GeoFits, IsSar}
use mt.Sar.Limit.{
  Region, Band, Range, RangePower, region_row, band_column, geo_start, geo_max, band_of,
}
use mt.Sar.Caps.{IsIn, IsBelow, geo_caps, caps_with, caps}

-- power > 127 || power < -127
abbrev pub is_beyond : ℕ → Bool
is_beyond p = ltb (rank32 127) (rank32 p) || ltb (rank32 p) (rank32 4294967169)

abbrev pub clamp : ℕ → ℕ
clamp p = if is_beyond p then 127 else p

-- The loop of mt76_get_sar_power at the frequency of a channel.
abbrev pub in_range : ℕ → Option Range → Bool
in_range freq none = false
in_range freq (some r) = leb r.start_freq freq && ltb freq r.end_freq

unfoldable pub first_range : ℕ → List RangePower → ℕ → ℕ
first_range freq [] power = power
first_range freq (f ∷ fs) power =
    if in_range freq f.range then min32 (extend f.power) power else first_range freq fs power

-- mt76_get_sar_power; `power` is an int. `none` stands for a device without sar_capa or phy->frp.
unfoldable pub get_sar_power : Option (List RangePower) → ℕ → ℕ → ℕ
get_sar_power none freq power = power
get_sar_power (some frp) freq power = first_range freq frp (clamp power)

abbrev pub AllPowers : List RangePower → Type 0
AllPowers [] = Unit {0}
AllPowers (f ∷ fs) = (f.power < 256) × AllPowers fs

-- The int `q` is not above any of these s8.
abbrev pub UnderAll : ℕ → List ℕ → Type 0
UnderAll q [] = Unit {0}
UnderAll q (c ∷ cs) = (rank32 q ≤ rank32 (extend c)) × UnderAll q cs

-- On a frequency, `q` is not above what the tables say of the first range in use that has it.
abbrev pub caps_of : AcpiSar → List ℕ → Region → ℕ → Option Range → List ℕ
caps_of s t region i none = []
caps_of s t region i (some r) = caps s t region r (i % 256)

abbrev pub Choose : Bool → Type 0 → Type 0 → Type 0
Choose true A B = A
Choose false A B = B

abbrev pub Obeys : AcpiSar → List ℕ → Region → ℕ → ℕ → List RangePower → ℕ → Type 0
Obeys s t region freq i [] q = Unit {0}
Obeys s t region freq i (g ∷ gs) q =
    Choose (in_range freq g.range) (UnderAll q (caps_of s t region i g.range))
      (Obeys s t region freq (i + 1) gs q)

pub first_range_le :
    (freq : ℕ) (gs : List RangePower) (p : ℕ) → rank32 (first_range freq gs p) ≤ rank32 p
unfolding first_range
first_range_le freq [] p = omega arith
first_range_le freq (g ∷ gs) p = elim (Bool-cases (in_range freq g.range)) [
  | inl e ↦ rw e (min32-right (extend g.power) p)
  | inr e ↦ rw e (first_range_le freq gs p)
]

get_or_byte : (t : List ℕ) (i : ℕ) → AllBytes t → get_or t i 0 < 256
get_or_byte [] i h = omega arith
get_or_byte (x ∷ t) zero h = h.0
get_or_byte (x ∷ t) (suc i) h = get_or_byte t i h.1

if-AllBytes :
    (c : Bool) (xs ys : List ℕ) → AllBytes xs → AllBytes ys → AllBytes (if c then xs else ys)
if-AllBytes true xs ys a b = a
if-AllBytes false xs ys a b = b

geo_caps-AllBytes :
    (ver : ℕ) (g : List ℕ) (row p : ℕ) (o : Option ℕ)
    → AllBytes g
    → p < 256
    → AllBytes (geo_caps ver g row p o)
geo_caps-AllBytes ver g row p none a h = (h, tt)
geo_caps-AllBytes ver g row p (some idx) a h =
    if-AllBytes (leb (geo_max ver) idx) (p ∷ []) _ (h, tt)
      (
        get_or_byte g _ a,
        (mod-lt (p + get_or g (geo_start ver row + 2 * idx + 1) 0) (omega arith), tt),
      )

caps_with-AllBytes :
    (ver : ℕ) (o : Option (List ℕ)) (region : Region) (band : Band) (p : ℕ)
    → OrNull (GeoFits ver) ⊥ o
    → p < 256
    → AllBytes (caps_with ver o region band p)
caps_with-AllBytes ver none region band p g h = (h, tt)
caps_with-AllBytes ver (some t) region band p g h =
    geo_caps-AllBytes ver t (region_row region) p (band_column band) g.1 h

pub caps-AllBytes :
    (s : AcpiSar) (t : List ℕ) (region : Region) (r : Range) (i : ℕ)
    → IsSar s
    → AllBytes t
    → AllBytes (caps s t region r i)
caps-AllBytes s t region r i w h =
    if-AllBytes (leb (if s.ver == 1 then 5 else 11) i) (127 ∷ []) _ (omega arith, tt)
      (caps_with-AllBytes s.ver s.geo region (band_of r) _ w.geo_fits (get_or_byte t _ h))

pub IsIn-byte : (x : ℕ) (ys : List ℕ) → IsIn x ys → AllBytes ys → x < 256
IsIn-byte x [] h a = absurd h
IsIn-byte x (y ∷ ys) (inl e) a = omega (arith, e, a.0)
IsIn-byte x (y ∷ ys) (inr h) a = IsIn-byte x ys h a.1

chain : (a b c d e k : ℕ) → a ≤ b → b ≡ d + k → c ≡ e + k → d ≤ e → a ≤ c
chain a b c d e k l g h m = omega (arith, l, g, h, m)

pub least-UnderAll :
    (q x : ℕ) (ys : List ℕ)
    → rank32 q ≤ rank32 (extend x)
    → x < 256
    → IsBelow x ys
    → AllBytes ys
    → UnderAll q ys
least-UnderAll q x [] l b h a = tt
least-UnderAll q x (y ∷ ys) l b h a =
    let e = extend_rank x b in
    let g = extend_rank y a.0 in
    (
      chain (rank32 q) _ _ (rank8 x) (rank8 y) 2147483520 l e g h.0,
      least-UnderAll q x ys l b h.1 a.1,
    )
