-- ===== src/Sar/Tables.antt =====
-- mt792x_init_acpi_sar: what is known of a table that was kept.
use mt.Common.{
  ℕ, suc, ◌-◌, ◌/◌, ◌≤◌, ◌<◌, ◌≡◌, refl, ap, subst, arith, ◌⊎◌, inl, inr, Bool, false, not, ◌||◌,
  Option, none, some, some_inj, List, [], ◌∷◌, ◌==◌, ltb, length, get_elem?, ==→eq,
}
use native.Mathlib.Nat.{mod-lt}
use mt.Sar.{
  UnitObject, integer, other_object, Answer, no_handle, no_value, no_package, elements, Acpi,
  Method, mtds, mtgs, mtfg, mtcl, ok, err, einval, enomem, eopnotsupp, cons_byte, bytes_of,
  is_integer, all_integers, read_answer, acpi_read, ver_of, list_of, read_mtcl, check_mtds,
  read_mtds, check_mtgs, read_mtgs, read_mtfg, AcpiSar, init_acpi_sar,
}
use mt.Sar.Outcome.{
  Outcome, AllBytes, then-Outcome, with_equation, OrNull, if-Outcome, byte-Outcome, null_then, lift,
  weaken,
}

-- What acpi_read gives: at least four bytes.
abbrev pub IsRead : List ℕ → Type 0
IsRead t = (4 ≤ length t) × AllBytes t

bytes_of-AllBytes :
    (us : List UnitObject)
    → Outcome (λ bs. (length bs ≡ length us) × AllBytes bs) ⊥ (all_integers (bytes_of us))
unfolding bytes_of
bytes_of-AllBytes [] = (refl, tt)
bytes_of-AllBytes (integer v ∷ rest) = step (bytes_of rest) (bytes_of-AllBytes rest)
  where
    step :
        (o : Option (List ℕ))
        → Outcome (λ bs. (length bs ≡ length rest) × AllBytes bs) ⊥ (all_integers o)
        → Outcome
            (λ bs. (length bs ≡ suc (length rest)) × AllBytes bs)
            ⊥
            (all_integers (cons_byte v o))
    step none h = tt
    step (some bs) h = (ap suc h.0, (mod-lt v (omega arith), h.1))
bytes_of-AllBytes (other_object ∷ rest) = tt

long :
    (us : List UnitObject) (c : Bool)
    → (ltb (length us) 4 || c) ≡ false
    → (bs : List ℕ) → length bs ≡ length us
    → 4 ≤ length bs
long us c h bs e = ground (arith, h, e)

read_answer-IsRead : (b : Bool) (n : Answer) → Outcome IsRead ⊥ (read_answer b n)
unfolding read_answer
read_answer-IsRead b no_handle = tt
read_answer-IsRead b no_value = tt
read_answer-IsRead b no_package = tt
read_answer-IsRead b (elements us) =
    if-Outcome IsRead ⊥ (ltb (length us) 4 || not (is_integer (get_elem? us 0))) (err einval) _
      (λ h. tt)
      (λ h.
        if-Outcome IsRead ⊥ (not b) (err enomem) _ (λ g. tt)
          (λ g.
            weaken _ IsRead (all_integers (bytes_of us)) (λ bs q. (long us _ h bs q.0, q.1))
              (bytes_of-AllBytes us)))

acpi_read-IsRead : (a : Acpi) (m : Method) → Outcome IsRead ⊥ (acpi_read a m)
unfolding acpi_read
acpi_read-IsRead a m =
    if-Outcome IsRead ⊥ (not a.has_root) (err eopnotsupp) _ (λ h. tt)
      (λ h. read_answer-IsRead (a.alloc m) (a.answer m))

-- The tables that are kept: a row of limits for MTDS, three rows for MTGS, in the layout of the
-- version, and one of the two lengths for MTCL.
abbrev pub DynFits : ℕ → List ℕ → Type 0
DynFits ver t = ((ver ≡ 1) × (12 ≤ length t) ⊎ (ver ≡ 2) × (19 ≤ length t)) × AllBytes t

abbrev pub GeoFits : ℕ → List ℕ → Type 0
GeoFits ver t = ((ver ≡ 1) × (21 ≤ length t) ⊎ (ver ≡ 2) × (28 ≤ length t)) × AllBytes t

abbrev pub ListFits : List ℕ × ℕ → Type 0
ListFits (t, v) = ((length t ≡ 19) ⊎ (length t ≡ 26)) × (get_elem? t 4 ≡ some v) × AllBytes t

abbrev pub FlagsFit : List ℕ → Type 0
FlagsFit t = (8 ≤ length t) × AllBytes t

-- The table of dynamic limits ends before its `enable`.
abbrev pub IsShort : Acpi → Type 0
IsShort a = (t : List ℕ) × (acpi_read a mtds ≡ ok t) × (length t ≡ 4)

check_mtds-Fits :
    (sarlen prelen : ℕ) (t : List ℕ) (P : List ℕ → Type 0) (Q : Type 0)
    → (((length t - prelen) / sarlen < 1 → ⊥) → P t)
    → (length t ≤ 4 → Q)
    → Outcome P Q (check_mtds sarlen prelen t)
unfolding check_mtds
check_mtds-Fits sarlen prelen t P Q p q = byte-Outcome P Q t 4 _ q (λ enable _.
    let n = (length t - prelen) / sarlen in
    if-Outcome P Q (enable == 0 || (ltb 8 n || ltb n 1)) (err einval) (ok t) (λ h. tt)
      (λ h. p (λ z. ground (arith, h, z))))

check_mtgs-Fits :
    (sarlen prelen : ℕ) (t : List ℕ) (P : List ℕ → Type 0)
    → (((length t - prelen) / sarlen < 3 → ⊥) → P t)
    → Outcome P ⊥ (check_mtgs sarlen prelen t)
unfolding check_mtgs
check_mtgs-Fits sarlen prelen t P p =
    let n = (length t - prelen) / sarlen in
    if-Outcome P ⊥ (ltb 8 n || ltb n 3) (err einval) (ok t) (λ h. tt)
      (λ h. p (λ z. ground (arith, h, z)))

read_mtds-Fits : (a : Acpi) (ver : ℕ) → Outcome (DynFits ver) (IsShort a) (read_mtds a ver)
unfolding read_mtds
read_mtds-Fits a ver =
    then-Outcome (λ t. IsRead t × (acpi_read a mtds ≡ ok t)) (DynFits ver) (IsShort a)
      (acpi_read a mtds) _
      (lift (λ t. IsRead t × (acpi_read a mtds ≡ ok t)) (IsShort a) (acpi_read a mtds)
        (with_equation IsRead ⊥ (acpi_read a mtds) (acpi_read-IsRead a mtds)))
      (λ t h.
        let q : length t ≤ 4 → IsShort a = λ l. (t, h.1, omega (arith, l, h.0.0)) in
        if-Outcome (DynFits ver) (IsShort a) (ver == 1) (check_mtds 6 6 t) _
          (λ e. check_mtds-Fits 6 6 t _ _ (λ n. (inl (==→eq ver 1 e, ground (arith, n)), h.0.1)) q)
          (λ e.
            if-Outcome (DynFits ver) (IsShort a) (ver == 2) (check_mtds 12 7 t) (err einval)
              (λ g.
                check_mtds-Fits 12 7 t _ _ (λ n. (inr (==→eq ver 2 g, ground (arith, n)), h.0.1)) q)
              (λ g. tt)))

read_mtgs-Fits : (a : Acpi) (ver : ℕ) → Outcome (GeoFits ver) ⊥ (read_mtgs a ver)
unfolding read_mtgs
read_mtgs-Fits a ver =
    then-Outcome IsRead (GeoFits ver) ⊥ (acpi_read a mtgs) _ (acpi_read-IsRead a mtgs) (λ t h.
      if-Outcome (GeoFits ver) ⊥ (ver == 1) (check_mtgs 5 6 t) _
        (λ e. check_mtgs-Fits 5 6 t _ (λ n. (inl (==→eq ver 1 e, ground (arith, n)), h.1)))
        (λ e.
          if-Outcome (GeoFits ver) ⊥ (ver == 2) (check_mtgs 7 7 t) (err einval)
            (λ g. check_mtgs-Fits 7 7 t _ (λ n. (inr (==→eq ver 2 g, ground (arith, n)), h.1)))
            (λ g. tt)))

read_mtfg-Fits : (a : Acpi) → Outcome FlagsFit ⊥ (read_mtfg a)
unfolding read_mtfg
read_mtfg-Fits a =
    then-Outcome IsRead FlagsFit ⊥ (acpi_read a mtfg) _ (acpi_read-IsRead a mtfg) (λ t h.
      if-Outcome FlagsFit ⊥ (ltb (length t) 8) (err einval) (ok t) (λ e. tt)
        (λ e. (ground (arith, e), h.1)))

read_mtcl-Fits : (a : Acpi) → Outcome ListFits ⊥ (read_mtcl a)
unfolding read_mtcl
read_mtcl-Fits a =
    then-Outcome IsRead ListFits ⊥ (acpi_read a mtcl) _ (acpi_read-IsRead a mtcl) (λ t h.
      if-Outcome ListFits ⊥ (length t == 19 || length t == 26) _ (err einval)
        (λ e.
          byte-Outcome ListFits ⊥ t 4 _ (λ l. ground (arith, e, l))
            (λ v g. (ground (arith, e), g, h.1)))
        (λ e. tt))

-- What is known of the tables of a device.
pub record IsSar (s : AcpiSar) : Type 0 where
  pub dyn_fits : OrNull (DynFits s.ver) ⊥ s.dyn
  pub geo_fits : OrNull (GeoFits s.ver) ⊥ s.geo
  pub list_fits : (t : List ℕ) → s.countrylist ≡ some t → ListFits (t, s.ver)
  pub flags_fit : OrNull FlagsFit ⊥ s.fg

mtcl-ListFits :
    (c : Option (List ℕ × ℕ)) (t : List ℕ)
    → OrNull ListFits ⊥ c
    → list_of c ≡ some t
    → ListFits (t, ver_of c)
mtcl-ListFits none t h e = ground arith
mtcl-ListFits (some (u, v)) t h e = subst (λ x. ListFits (x, v)) (some_inj e) h

pub init_acpi_sar-IsSar : (a : Acpi) → Outcome IsSar (IsShort a) (init_acpi_sar a)
unfolding init_acpi_sar
init_acpi_sar-IsSar a =
    if-Outcome IsSar (IsShort a) (not a.alloc_sar) (err enomem) _ (λ e. tt)
      (λ e.
        null_then (IsShort a) ListFits IsSar (read_mtcl a) _
          (lift ListFits (IsShort a) (read_mtcl a) (read_mtcl-Fits a))
          (λ c hc.
            null_then (IsShort a) (DynFits (ver_of c)) IsSar (read_mtds a (ver_of c)) _
              (read_mtds-Fits a (ver_of c))
              (λ d hd.
                null_then (IsShort a) (GeoFits (ver_of c)) IsSar (read_mtgs a (ver_of c)) _
                  (lift (GeoFits (ver_of c)) (IsShort a) (read_mtgs a (ver_of c))
                    (read_mtgs-Fits a (ver_of c)))
                  (λ g hg.
                    null_then (IsShort a) FlagsFit IsSar (read_mtfg a) _
                      (lift FlagsFit (IsShort a) (read_mtfg a) (read_mtfg-Fits a))
                      (λ f hf. record {
                        dyn_fits = hd;
                        geo_fits = hg;
                        list_fits = λ t. mtcl-ListFits c t hc;
                        flags_fit = hf;
                      })))))
