-- ===== src/Sar/Told.antt =====
-- Which bytes of the country list and of the flags are read, and what may come of it.
use mt.Common.{
  ℕ, zero, suc, ◌+◌, ◌-◌, ◌*◌, ◌/◌, ◌%◌, ◌≤◌, ◌<◌, ◌≡◌, refl, sym, ◌∙◌, ap, arith, ◌⊎◌, inl, inr,
  Bool, true, false, not, ◌||◌, Option, none, some, some_inj, List, [], ◌∷◌, if◌then◌else◌, ◌==◌,
  ==→eq, ltb, length, get_or, take, drop,
}
use mt.Sar.{AcpiSar, Res, ok, err, outside, byte, then_with}
use mt.Sar.Outcome.{Yields, OrNull, byte-Reads, map-Reads, Reads}
use mt.Sar.Tables.{FlagsFit, ListFits, IsSar}
use mt.Sar.Country.{
  cc_list_all, cc_list_eu, cc_list_be, invalid, has_bit, index_with, index_of, get_mtcl_map_v3,
  get_mtcl_map, tbl_v3_at, parse_mtcl_tbl_v3, tbl_at, conf_with, get_mtcl_conf, flags_from,
  flags_of, acpi_get_flags,
}

if-Yields :
    (P : ℕ → Type 0) (c : Bool) (x y : Res ℕ)
    → Yields P x
    → Yields P y
    → Yields P (if c then x else y)
if-Yields P true x y a b = a
if-Yields P false x y a b = b

if-small : (c : Bool) (a n : ℕ) → a < n → (if c then a else 0) < n
if-small true a n h = h
if-small false a n h = omega (arith, h)

index_of-small : (cs : List ℕ) (code i : ℕ) → index_of cs code ≡ some i → i < length cs
unfolding index_of
index_of-small [] code i e = ground (arith, e)
index_of-small (c ∷ cs) code i e =
    by (c == code) (index_of cs code) (λ j q. index_of-small cs code j q) e
  where
    by :
        (b : Bool) (o : Option ℕ)
        → ((j : ℕ) → o ≡ some j → j < length cs)
        → index_with b o ≡ some i
        → i < suc (length cs)
    by true o f e = omega (arith, some_inj e)
    by false none f e = ground (arith, e)
    by false (some j) f e = omega (arith, some_inj e, f j refl)

map_v3-small :
    (row column : ℕ) (t : List ℕ)
    → row < 6
    → 26 ≤ length t
    → Yields (λ c. c < 49) (get_mtcl_map_v3 row column t)
unfolding get_mtcl_map_v3
map_v3-small row column t r l =
    byte-Reads (λ c. c < 49) ⊥ t 19 _ (omega (arith, l))
      (byte-Reads (λ c. c < 49) ⊥ t 4 _ (omega (arith, l))
        (if-Yields (λ c. c < 49) (ltb 2 (get_or t 4 0)) _ (ok 0)
          (byte-Reads (λ c. c < 49) ⊥ t (20 + row) _ (omega (arith, l, r))
            (if-small (has_bit (get_or t (20 + row) 0) column) _ 49 (omega arith)))
          (omega arith)))

map-small :
    (row column : ℕ) (t : List ℕ)
    → row < 6
    → 19 ≤ length t
    → Yields (λ c. c < 16) (get_mtcl_map row column t)
unfolding get_mtcl_map
map-small row column t r l = byte-Reads Q ⊥ t 5 _ (omega (arith, l)) (
    byte-Reads Q ⊥ t 12 _ (omega (arith, l)) (
      byte-Reads Q ⊥ t (6 + row) _ (omega (arith, l, r)) (
        byte-Reads Q ⊥ t 4 _ (omega (arith, l)) (
          if-Yields Q (ltb 1 (get_or t 4 0)) _ _
            (byte-Reads Q ⊥ t (13 + row) _ (omega (arith, l, r)) (omega (arith, six, five)))
            (omega (arith, six))))))
  where
    Q : ℕ → Type 0
    Q c = c < 16

    mode6 : ℕ
    mode6 = if ltb 2 (get_or t 5 0) then 0 else get_or t 5 0

    mode5 : ℕ
    mode5 = if ltb 1 (get_or t 12 0) then 0 else get_or t 12 0

    six :
        (if has_bit (get_or t (6 + row) 0) column || get_or t 5 0 == 2 then mode6 % 4 * 4 else 0)
        < 13
    six = if-small _ (mode6 % 4 * 4) 13 (omega arith)

    five : (if has_bit (get_or t (13 + row) 0) column then mode5 % 4 else 0) < 4
    five = if-small _ (mode5 % 4) 4 (omega arith)

Yields-Reads : {A : Type 0} (P : A → Type 0) (Q : Type 0) (r : Res A) → Yields P r → Reads P Q r
Yields-Reads P Q (ok x) h = h
Yields-Reads P Q (err e) h = h
Yields-Reads P Q outside h = absurd h

then-Reads :
    {A B : Type 0} (P : A → Type 0) (R : B → Type 0) (Q : Type 0) (r : Res A) (k : A → Res B)
    → Reads P Q r
    → ((x : A) → P x → Reads R Q (k x))
    → Reads R Q (then_with r k)
then-Reads P R Q (ok x) k h f = f x h
then-Reads P R Q (err e) k h f = h
then-Reads P R Q outside k h f = h

-- Without a list nothing is restricted; with one the answer has six bits, unless a table of 19 bytes
-- calls itself one of version 3, and is then read beyond its end.
abbrev pub ConfTold : Option (List ℕ) → ℕ → Res ℕ → Type 0
ConfTold none ver r = r ≡ ok invalid
ConfTold (some t) ver r = Reads (λ c. c < 64) ((ver ≡ 3) × (length t ≡ 19)) r

byte-outside :
    {B : Type 0} (P : B → Type 0) (Q : Type 0) (t : List ℕ) (i : ℕ) (k : ℕ → Res B)
    → length t ≤ i
    → Q
    → Reads P Q (byte t i k)
byte-outside P Q [] i k h q = q
byte-outside P Q (x ∷ t) zero k h q = absurd (omega (arith, h))
byte-outside P Q (x ∷ t) (suc i) k h q = byte-outside P Q t i k (omega (arith, h)) q

-- A table of version 3, of either length.
map_v3-Reads :
    (row column : ℕ) (t : List ℕ) (Q : Type 0)
    → row < 6
    → ((26 ≤ length t) ⊎ ((length t ≡ 19) × Q))
    → Reads (λ c. c < 49) Q (get_mtcl_map_v3 row column t)
unfolding get_mtcl_map_v3
map_v3-Reads row column t Q r (inl l) =
    Yields-Reads (λ c. c < 49) Q (get_mtcl_map_v3 row column t) (map_v3-small row column t r l)
map_v3-Reads row column t Q r (inr (l, q)) =
    byte-outside (λ c. c < 49) Q t 19 _ (omega (arith, l)) q

tbl_v3_at-Reads :
    (o e : Option ℕ) (t : List ℕ) (Q : Type 0)
    → ((i : ℕ) → o ≡ some i → i < 48)
    → ((26 ≤ length t) ⊎ ((length t ≡ 19) × Q))
    → Reads (λ c. c < 49) Q (tbl_v3_at o e t)
unfolding tbl_v3_at
tbl_v3_at-Reads (some i) e t Q small h =
    map_v3-Reads (i / 8) (7 - i % 8) t Q (omega (arith, small i refl)) h
tbl_v3_at-Reads none (some i) t Q small h = map_v3-Reads 3 7 t Q (omega arith) h
tbl_v3_at-Reads none none t Q small h = omega arith

tbl_at-small :
    (o e : Option ℕ) (t : List ℕ)
    → ((i : ℕ) → o ≡ some i → i < 48)
    → 19 ≤ length t
    → Yields (λ c. c < 16) (tbl_at o e t)
unfolding tbl_at
tbl_at-small (some i) e t small h = map-small (i / 8) (7 - i % 8) t (omega (arith, small i refl)) h
tbl_at-small none (some i) t small h = map-small 0 6 t (omega arith) h
tbl_at-small none none t small h = map-small 0 7 t (omega arith) h

parse_v3-Reads :
    (s : AcpiSar) (code : ℕ) (t : List ℕ)
    → (length t ≡ 19) ⊎ (length t ≡ 26)
    → Reads (λ c. c < 49) ((s.ver ≡ 3) × (length t ≡ 19)) (parse_mtcl_tbl_v3 s code t)
unfolding parse_mtcl_tbl_v3
parse_v3-Reads s code t l = by (s.ver == 3) (λ e. ==→eq _ 3 e)
  where
    big : (i : ℕ) → index_of cc_list_be code ≡ some i → i < 48
    big i e = omega (arith, index_of-small cc_list_be code i e)

    long : s.ver ≡ 3 → (26 ≤ length t) ⊎ ((length t ≡ 19) × ((s.ver ≡ 3) × (length t ≡ 19)))
    long v = elim l [ inl e ↦ inr (e, (v, e)) | inr e ↦ inl (omega (arith, e)) ]

    by :
        (b : Bool)
        → (b ≡ true → s.ver ≡ 3)
        → Reads
            (λ c. c < 49)
            ((s.ver ≡ 3) × (length t ≡ 19))
            (if not b
              then ok 0x20
              else tbl_v3_at (index_of cc_list_be code) (index_of cc_list_eu code) t)
    by false v = omega arith
    by true v =
        tbl_v3_at-Reads (index_of cc_list_be code) (index_of cc_list_eu code) t
          ((s.ver ≡ 3) × (length t ≡ 19)) big (long (v refl))

sum-small :
    (c : ℕ) (Q : Type 0) (r : Res ℕ)
    → c < 49
    → Yields (λ m. m < 16) r
    → Reads (λ n. n < 64) Q (if c == invalid then ok invalid else then_with r (λ m. ok (c + m)))
sum-small c Q (ok m) h g = ground (arith, h, g)
sum-small c Q (err e) h g = absurd g
sum-small c Q outside h g = absurd g

conf_with-Told :
    (s : AcpiSar) (code : ℕ) (o : Option (List ℕ))
    → ((t : List ℕ) → o ≡ some t → ListFits (t, s.ver))
    → ConfTold o s.ver (conf_with s code o)
unfolding conf_with
conf_with-Told s code none h = refl
conf_with-Told s code (some t) h =
    then-Reads (λ c. c < 49) (λ c. c < 64) ((s.ver ≡ 3) × (length t ≡ 19))
      (parse_mtcl_tbl_v3 s code t) _ (parse_v3-Reads s code t (h t refl).0)
      (λ c g. sum-small c _ (tbl_at (index_of cc_list_all code) (index_of cc_list_eu code) t) g (
        tbl_at-small (index_of cc_list_all code) (index_of cc_list_eu code) t
          (λ i e. omega (arith, index_of-small cc_list_all code i e))
          (elim (h t refl).0 [ inl e ↦ omega (arith, e) | inr e ↦ omega (arith, e) ])))

pub get_mtcl_conf-Told :
    (s : AcpiSar) (code : ℕ) → IsSar s → ConfTold s.countrylist s.ver (get_mtcl_conf (some s) code)
unfolding get_mtcl_conf
get_mtcl_conf-Told s code w = conf_with-Told s code s.countrylist w.list_fits

-- The flags say whether 1 and 4 are among the table's, if it has as many as it says.
abbrev pub among : ℕ → List ℕ → Bool
among f [] = false
among f (g ∷ gs) = (g == f) || among f gs

abbrev pub flags_of_all : Bool → Bool → ℕ
flags_of_all one four = 1 + (if one then 2 else 0) + (if four then 4 else 0)

abbrev pub FlagsTold : Option (List ℕ) → Res ℕ → Type 0
FlagsTold none r = r ≡ ok 1
FlagsTold (some t) r =
    let n = get_or t 6 0 in
    let flags = take n (drop 8 t) in
    Reads (λ c. (8 + n ≤ length t) × (c ≡ flags_of_all (among 1 flags) (among 4 flags)))
      (length t < 8 + n) r

-- A read of the table at `i`, where `drop i` has what is from there on.
byte-drop :
    {B : Type 0} (P : B → Type 0) (Q : Type 0) (t : List ℕ) (i : ℕ) (k : ℕ → Res B)
    → (length t ≤ i → Q)
    → (i < length t → (f : ℕ) → drop i t ≡ f ∷ drop (suc i) t → Reads P Q (k f))
    → Reads P Q (byte t i k)
byte-drop P Q [] i k q f = q (omega arith)
byte-drop P Q (x ∷ t) zero k q f = f (omega arith) x refl
byte-drop P Q (x ∷ t) (suc i) k q f =
    byte-drop P Q t i k (λ h. q (omega (arith, h))) (λ h. f (omega (arith, h)))

or_assoc : (a b c : Bool) → ((a || b) || c) ≡ (a || (b || c))
or_assoc true b c = refl
or_assoc false b c = refl

or_false : (a : Bool) → a ≡ (a || false)
or_false true = refl
or_false false = refl

among-drop :
    (b : Bool) (g n k j f : ℕ) (t : List ℕ)
    → j ≡ suc k
    → drop k t ≡ f ∷ drop (suc k) t
    → ((b || f == g) || among g (take n (drop j t))) ≡ (b || among g (take (suc n) (drop k t)))
among-drop b g n k j f t q e =
    or_assoc b (f == g) (among g (take n (drop j t)))
    ∙ ap (λ i. b || (f == g || among g (take n (drop i t)))) q
    ∙ ap (λ xs. b || among g (take (suc n) xs)) (sym e)

flags_from-Told :
    (n i m : ℕ) (t : List ℕ) (one four : Bool)
    → m ≡ i + n
    → 8 + i ≤ length t
    → Reads
        (λ c.
          (8 + m ≤ length t)
          × (c
              ≡ flags_of_all
                  (one || among 1 (take n (drop (8 + i) t)))
                  (four || among 4 (take n (drop (8 + i) t)))))
        (length t < 8 + m)
        (flags_from n i t one four)
unfolding flags_from
flags_from-Told zero i m t one four q l =
    (omega (arith, l, q), rw (sym (or_false one), sym (or_false four)))
flags_from-Told (suc n) i m t one four q l =
    byte-drop _ _ t (8 + i) _ (λ h. omega (arith, h, q))
      (λ r f e.
        map-Reads _ _ _ _ (flags_from n (suc i) t (one || f == 1) (four || f == 4))
          (λ c h. (
            h.0,
            h.1
                ∙ ap
                    (λ b.
                      flags_of_all b (((four || f == 4)) || among 4 (take n (drop (8 + suc i) t))))
                    (among-drop one 1 n (8 + i) (8 + suc i) f t (omega arith) e)
                ∙ ap (flags_of_all (one || among 1 (take (suc n) (drop (8 + i) t))))
                    (among-drop four 4 n (8 + i) (8 + suc i) f t (omega arith) e),
          ))
          (λ h. h)
          (flags_from-Told n (suc i) m t (one || f == 1) (four || f == 4) (omega (arith, q))
            (omega (arith, r))))

pub acpi_get_flags-Told : (s : AcpiSar) → IsSar s → FlagsTold s.fg (acpi_get_flags (some s))
unfolding acpi_get_flags
acpi_get_flags-Told s w = by s.fg w.flags_fit
  where
    by : (o : Option (List ℕ)) → OrNull FlagsFit ⊥ o → FlagsTold o (flags_of o)
    by none h = refl
    by (some t) h =
        byte-Reads _ _ t 6 _ (omega (arith, h.0))
          (flags_from-Told (get_or t 6 0) 0 (get_or t 6 0) t false false (omega arith) h.0)
