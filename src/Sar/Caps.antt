-- ===== src/Sar/Caps.antt =====
-- The limit of a range is the least of what the tables say of it.
use mt.Common.{
  ℕ, ◌+◌, ◌*◌, ◌≤◌, ◌<◌, ◌≡◌, refl, sym, subst, arith, ◌⊎◌, inl, inr, Bool, true, false, Option,
  none, some, List, [], ◌∷◌, if◌then◌else◌, ◌==◌, leb, ltb, length, get_or, Bool-cases,
}
use mt.Common.Signed.{rank8, min8, add8}
use mt.Sar.{AcpiSar, Res, ok}
use mt.Sar.Outcome.{byte-Reads, Yields, OrNull}
use mt.Sar.Tables.{DynFits, GeoFits, IsSar}
use mt.Sar.Limit.{
  Region, fcc, etsi, other_region, Band, Range, region_row, band_column, geo_start, geo_max,
  geo_pwr_at, get_geo_pwr, band_of, range_pwr,
}

-- The s8 `x` is in the list, and the least of it.
abbrev pub IsIn : ℕ → List ℕ → Type 0
IsIn x [] = ⊥
IsIn x (y ∷ ys) = (x ≡ y) ⊎ IsIn x ys

abbrev pub IsBelow : ℕ → List ℕ → Type 0
IsBelow x [] = Unit {0}
IsBelow x (y ∷ ys) = (rank8 x ≤ rank8 y) × IsBelow x ys

abbrev pub IsLeast : ℕ → List ℕ → Type 0
IsLeast x ys = IsIn x ys × IsBelow x ys

pub one-IsLeast : (x : ℕ) → IsLeast x (x ∷ [])
one-IsLeast x = ((inl refl), (omega arith, tt))

less-IsBelow : (x y : ℕ) (ys : List ℕ) → rank8 x ≤ rank8 y → IsBelow y ys → IsBelow x ys
less-IsBelow x y [] h b = tt
less-IsBelow x y (z ∷ zs) h b = (omega (arith, h, b.0), less-IsBelow x y zs h b.1)

pub min8-IsLeast : (x y : ℕ) (ys : List ℕ) → IsLeast y ys → IsLeast (min8 x y) (x ∷ ys)
min8-IsLeast x y ys h = elim (Bool-cases (ltb (rank8 x) (rank8 y))) [
  | inl e ↦
      subst (λ b. IsLeast (if b then x else y) (x ∷ ys)) (sym e)
        (inl refl, (omega arith, less-IsBelow x y ys (ground (arith, e)) h.1))
  | inr e ↦
      subst (λ b. IsLeast (if b then x else y) (x ∷ ys)) (sym e) (inr h.0, (ground (arith, e), h.1))
]

-- The limits that the tables have for a range: MTDS has a row of five or eleven, for the ranges in
-- their order; MTGS has for each region a row with a limit and an offset for each band.
abbrev pub geo_caps : ℕ → List ℕ → ℕ → ℕ → Option ℕ → List ℕ
geo_caps ver g row p none = p ∷ []
geo_caps ver g row p (some idx) =
    if leb (geo_max ver) idx
    then p ∷ []
    else get_or g (geo_start ver row + 2 * idx) 0
      ∷ add8 p (get_or g (geo_start ver row + 2 * idx + 1) 0)
      ∷ []

abbrev pub caps_with : ℕ → Option (List ℕ) → Region → Band → ℕ → List ℕ
caps_with ver none region band p = p ∷ []
caps_with ver (some g) region band p = geo_caps ver g (region_row region) p (band_column band)

abbrev pub caps : AcpiSar → List ℕ → Region → Range → ℕ → List ℕ
caps s t region range idx =
    if leb (if s.ver == 1 then 5 else 11) idx
    then 127 ∷ []
    else caps_with s.ver s.geo region (band_of range)
        (get_or t ((if s.ver == 1 then 7 else 8) + idx) 0)

if-IsLeast :
    (c : Bool) (x y : Res ℕ) (xs ys : List ℕ)
    → (c ≡ true → Yields (λ q. IsLeast q xs) x)
    → (c ≡ false → Yields (λ q. IsLeast q ys) y)
    → Yields (λ q. IsLeast q (if c then xs else ys)) (if c then x else y)
if-IsLeast true x y xs ys f g = f refl
if-IsLeast false x y xs ys f g = g refl

row_small : (region : Region) → region_row region < 3
row_small fcc = omega arith
row_small etsi = omega arith
row_small other_region = omega arith

geo_inside :
    (ver row idx len : ℕ)
    → (ver ≡ 1) × (21 ≤ len) ⊎ (ver ≡ 2) × (28 ≤ len)
    → row < 3
    → leb (geo_max ver) idx ≡ false
    → geo_start ver row + 2 * idx + 1 < len
geo_inside ver row idx len h r g = ground (arith, h, r, g)

dyn_inside :
    (ver idx len : ℕ)
    → (ver ≡ 1) × (12 ≤ len) ⊎ (ver ≡ 2) × (19 ≤ len)
    → leb (if ver == 1 then 5 else 11) idx ≡ false
    → (if ver == 1 then 7 else 8) + idx < len
dyn_inside ver idx len h r = ground (arith, h, r)

geo_pwr-IsLeast :
    (ver : ℕ) (g : List ℕ) (row p : ℕ) (o : Option ℕ)
    → GeoFits ver g
    → row < 3
    → Yields (λ q. IsLeast q (geo_caps ver g row p o)) (geo_pwr_at ver g row p o)
unfolding geo_pwr_at
geo_pwr-IsLeast ver g row p none h r = one-IsLeast p
geo_pwr-IsLeast ver g row p (some idx) h r =
    let k = geo_start ver row + 2 * idx in
    if-IsLeast (leb (geo_max ver) idx) (ok p) _ _ (get_or g k 0 ∷ add8 p (get_or g (k + 1) 0) ∷ [])
      (λ e. one-IsLeast p)
      (λ e.
        let l = geo_inside ver row idx (length g) h.0 r e in
        byte-Reads _ ⊥ g k _ (omega (arith, l)) (
          byte-Reads _ ⊥ g (k + 1) _ l (
            let y = add8 p (get_or g (k + 1) 0) in
            min8-IsLeast (get_or g k 0) y (y ∷ []) (one-IsLeast y))))

get_geo_pwr-IsLeast :
    (s : AcpiSar) (region : Region) (band : Band) (p : ℕ) (o : Option (List ℕ))
    → OrNull (GeoFits s.ver) ⊥ o
    → Yields
        (λ q. IsLeast q (caps_with s.ver o region band p))
        (get_geo_pwr (record s { geo = o }) region band p)
unfolding get_geo_pwr
get_geo_pwr-IsLeast s region band p none h = one-IsLeast p
get_geo_pwr-IsLeast s region band p (some g) h =
    geo_pwr-IsLeast s.ver g (region_row region) p (band_column band) h (row_small region)

pub range_pwr-IsLeast :
    (s : AcpiSar) (t : List ℕ) (region : Region) (range : Range) (idx : ℕ)
    → IsSar s
    → DynFits s.ver t
    → Yields (λ q. IsLeast q (caps s t region range idx)) (range_pwr s t region range idx)
unfolding range_pwr
range_pwr-IsLeast s t region range idx w h =
    let k = (if s.ver == 1 then 7 else 8) + idx in
    if-IsLeast (leb (if s.ver == 1 then 5 else 11) idx) (ok 127) _ _ _ (λ e. one-IsLeast 127)
      (λ e.
        byte-Reads _ ⊥ t k _ (dyn_inside s.ver idx (length t) h.0 e)
          (get_geo_pwr-IsLeast s region (band_of range) (get_or t k 0) s.geo w.geo_fits))
