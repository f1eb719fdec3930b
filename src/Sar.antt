-- ===== src/Sar.antt =====
-- mt792x_acpi_sar.c: the tables of power limits that the firmware of the machine gives, read and
-- checked when the device starts.
pub mod Asked
pub mod Caps
pub mod Country
pub mod Cover
pub mod Limit
pub mod Obeyed
pub mod Outcome
pub mod Specs
pub mod Tables
pub mod Told
mod Tests
use mt.Common.{
  ℕ, ◌-◌, ◌/◌, ◌%◌, Bool, true, false, not, ◌||◌, Option, none, some, List, [], ◌∷◌, map,
  if◌then◌else◌, ◌==◌, ltb, length, get_elem?,
}

-- An element of a package: an integer, or an object of another kind.
pub data UnitObject : Type 0 where
  integer : ℕ → UnitObject
  other_object : UnitObject

-- What acpi_get_handle and acpi_evaluate_object give for a method.
pub data Answer : Type 0 where
  no_handle : Answer
  no_value : Answer
  no_package : Answer
  elements : List UnitObject → Answer

pub data Error : Type 0 where
  enomem : Error
  einval : Error
  eio : Error
  eopnotsupp : Error

-- A result; `outside` stands for a read beyond the end of a table.
pub data Res {ℓ} (A : Type ℓ) : Type ℓ where
  ok : A → Res A
  err : Error → Res A
  outside : Res A

pub data Method : Type 0 where
  mtcl : Method
  mtds : Method
  mtgs : Method
  mtfg : Method

-- The machine: its methods, and whether the allocations succeed.
pub record Acpi : Type 0 where
  pub has_root : Bool
  pub answer : Method → Answer
  pub alloc : Method → Bool
  pub alloc_sar : Bool

-- The loop over the elements: the bytes, if all are integers.
abbrev pub cons_byte : ℕ → Option (List ℕ) → Option (List ℕ)
cons_byte b none = none
cons_byte b (some bs) = some (b % 256 ∷ bs)

pub bytes_of : List UnitObject → Option (List ℕ)
bytes_of [] = some []
bytes_of (integer v ∷ rest) = cons_byte v (bytes_of rest)
bytes_of (other_object ∷ rest) = none

abbrev pub is_integer : Option UnitObject → Bool
is_integer none = false
is_integer (some (integer v)) = true
is_integer (some other_object) = false

abbrev pub all_integers : Option (List ℕ) → Res (List ℕ)
all_integers none = err einval
all_integers (some bs) = ok bs

-- mt792x_acpi_read of a table that is not there yet; its length is that of the list.
pub read_answer : Bool → Answer → Res (List ℕ)
read_answer has_memory no_handle = err eio
read_answer has_memory no_value = err eio
read_answer has_memory no_package = err einval
read_answer has_memory (elements us) =
    if ltb (length us) 4 || not (is_integer (get_elem? us 0))
    then err einval
    else if not has_memory
    then err enomem
    else all_integers (bytes_of us)

pub acpi_read : Acpi → Method → Res (List ℕ)
acpi_read a m = if not a.has_root then err eopnotsupp else read_answer (a.alloc m) (a.answer m)

-- The sizes of the structs, all packed.
abbrev pub sizeof_cl : ℕ
sizeof_cl = 19

abbrev pub sizeof_cl_v3 : ℕ
sizeof_cl_v3 = 26

-- A byte of a table.
abbrev pub byte_with : {B : Type 0} → Option ℕ → (ℕ → Res B) → Res B
byte_with none k = outside
byte_with (some b) k = k b

abbrev pub byte : {B : Type 0} → List ℕ → ℕ → (ℕ → Res B) → Res B
byte t i k = byte_with (get_elem? t i) k

abbrev pub then_with : {A B : Type 0} → Res A → (A → Res B) → Res B
then_with (ok x) k = k x
then_with (err e) k = err e
then_with outside k = outside

-- mt792x_asar_acpi_read_mtcl: the table and its version.
pub read_mtcl : Acpi → Res (List ℕ × ℕ)
read_mtcl a = then_with (acpi_read a mtcl) (λ t.
    if length t == sizeof_cl || length t == sizeof_cl_v3
    then byte t 4 (λ v. ok (t, v))
    else err einval)

-- The check of mt792x_asar_acpi_read_mtds: `prelen` is the size of the head, `sarlen` that of a row.
pub check_mtds : ℕ → ℕ → List ℕ → Res (List ℕ)
check_mtds sarlen prelen t = byte t 4 (λ enable.
    let tblcnt = (length t - prelen) / sarlen in
    if enable == 0 || (ltb 8 tblcnt || ltb tblcnt 1) then err einval else ok t)

pub read_mtds : Acpi → ℕ → Res (List ℕ)
read_mtds a ver =
    then_with (acpi_read a mtds) (λ t.
      if ver == 1 then check_mtds 6 6 t else if ver == 2 then check_mtds 12 7 t else err einval)

pub check_mtgs : ℕ → ℕ → List ℕ → Res (List ℕ)
check_mtgs sarlen prelen t =
    let tblcnt = (length t - prelen) / sarlen in
    if ltb 8 tblcnt || ltb tblcnt 3 then err einval else ok t

pub read_mtgs : Acpi → ℕ → Res (List ℕ)
read_mtgs a ver =
    then_with (acpi_read a mtgs) (λ t.
      if ver == 1 then check_mtgs 5 6 t else if ver == 2 then check_mtgs 7 7 t else err einval)

pub read_mtfg : Acpi → Res (List ℕ)
read_mtfg a = then_with (acpi_read a mtfg) (λ t. if ltb (length t) 8 then err einval else ok t)

-- struct mt792x_acpi_sar; NULL is none.
pub record AcpiSar : Type 0 where
  pub ver : ℕ
  pub dyn : Option (List ℕ)
  pub geo : Option (List ℕ)
  pub countrylist : Option (List ℕ)
  pub fg : Option (List ℕ)

-- A table that was not read is freed and forgotten.
abbrev pub or_null : {A : Type 0} → Res A → Res (Option A)
or_null (ok x) = ok (some x)
or_null (err e) = ok none
or_null outside = outside

abbrev pub ver_of : Option (List ℕ × ℕ) → ℕ
ver_of none = 0
ver_of (some (t, v)) = v

abbrev pub list_of : Option (List ℕ × ℕ) → Option (List ℕ)
list_of none = none
list_of (some (t, v)) = some t

-- mt792x_init_acpi_sar
pub init_acpi_sar : Acpi → Res AcpiSar
init_acpi_sar a =
    if not a.alloc_sar
    then err enomem
    else then_with (or_null (read_mtcl a)) (λ c. then_with (or_null (read_mtds a (ver_of c))) (λ d.
      then_with (or_null (read_mtgs a (ver_of c))) (λ g.
        then_with (or_null (read_mtfg a)) (λ f.
          ok (record { ver = ver_of c; dyn = d; geo = g; countrylist = list_of c; fg = f })))))
