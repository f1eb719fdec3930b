-- ===== src/Sar/Country.antt =====
-- mt792x_acpi_sar.c: what the country list (MTCL) and the flags (MTFG) say to the firmware of the
-- chip.
use mt.Common.{
  ℕ, zero, suc, ◌+◌, ◌-◌, ◌*◌, ◌/◌, ◌%◌, ◌^◌, Bool, true, false, not, ◌||◌, Option, none, some,
  List, [], ◌∷◌, if◌then◌else◌, ◌==◌, ltb,
}
use mt.Sar.{AcpiSar, Res, ok, byte, then_with}

-- A country's code as a number of two bytes; an empty name, which no code is, as zero.
abbrev pub cc_list_all : List ℕ
cc_list_all =
    0x3030 ∷ 0x4555 ∷ 0x4152 ∷ 0x4155 ∷ 0x415a ∷ 0x4259 ∷ 0x424f ∷ 0x4252 ∷ 0x4341 ∷ 0x434c ∷ 0x434e
    ∷ 0x4944 ∷ 0x4a50 ∷ 0x4d59 ∷ 0x4d58 ∷ 0x4d45 ∷ 0x4d41 ∷ 0x4e5a ∷ 0x4e47 ∷ 0x5048 ∷ 0x5255
    ∷ 0x5253 ∷ 0x5347 ∷ 0x4b52 ∷ 0x5457 ∷ 0x5448 ∷ 0x5541 ∷ 0x4742 ∷ 0x5553 ∷ 0x564e ∷ 0x4b48
    ∷ 0x5059 ∷ []

abbrev pub cc_list_eu : List ℕ
cc_list_eu =
    0x4144 ∷ 0x4154 ∷ 0x4245 ∷ 0x4247 ∷ 0x4359 ∷ 0x435a ∷ 0x4852 ∷ 0x444b ∷ 0x4545 ∷ 0x4649 ∷ 0x4652
    ∷ 0x4445 ∷ 0x4752 ∷ 0x4855 ∷ 0x4953 ∷ 0x4945 ∷ 0x4954 ∷ 0x4c56 ∷ 0x4c49 ∷ 0x4c54 ∷ 0x4c55
    ∷ 0x4d43 ∷ 0x4d54 ∷ 0x4e4c ∷ 0x4e4f ∷ 0x504c ∷ 0x5054 ∷ 0x524f ∷ 0x534b ∷ 0x5349 ∷ 0x4553
    ∷ 0x5345 ∷ 0x4348 ∷ []

abbrev pub cc_list_be : List ℕ
cc_list_be =
    0x4152 ∷ 0x4252 ∷ 0x4259 ∷ 0x434c ∷ 0x4951 ∷ 0x4d58 ∷ 0x4f4d ∷ 0x5255 ∷ 0x5257 ∷ 0x564e ∷ 0x4b52
    ∷ 0x5541 ∷ 0 ∷ 0 ∷ 0 ∷ 0 ∷ 0x4555 ∷ 0x4154 ∷ 0x434e ∷ 0x4341 ∷ 0x5457 ∷ 0x4e5a ∷ 0x5048 ∷ 0x554b
    ∷ 0x5553 ∷ []

-- MT792X_ACPI_MTCL_INVALID
abbrev pub invalid : ℕ
invalid = 0xffffffff

-- cl[row] & BIT(column)
abbrev pub has_bit : ℕ → ℕ → Bool
has_bit b column = b / 2 ^ column % 2 == 1

-- The index of the first name that is the code.
abbrev pub index_with : Bool → Option ℕ → Option ℕ
index_with true o = some 0
index_with false none = none
index_with false (some i) = some (suc i)

unfoldable pub index_of : List ℕ → ℕ → Option ℕ
index_of [] code = none
index_of (c ∷ cs) code = index_with (c == code) (index_of cs code)

-- mt792x_acpi_get_mtcl_map_v3 and mt792x_acpi_get_mtcl_map; the fields of the result have bits of
-- their own, so that `|=` adds them.
unfoldable pub get_mtcl_map_v3 : ℕ → ℕ → List ℕ → Res ℕ
get_mtcl_map_v3 row column t = byte t 19 (λ mode.
    let mode_be = if ltb 2 mode then 0 else mode in
    byte t 4 (λ version.
      if ltb 2 version
      then byte t (20 + row) (λ b. ok (if has_bit b column then mode_be % 4 * 16 else 0))
      else ok 0))

unfoldable pub get_mtcl_map : ℕ → ℕ → List ℕ → Res ℕ
get_mtcl_map row column t = byte t 5 (λ mode6. byte t 12 (λ mode5.
    let mode_6g = if ltb 2 mode6 then 0 else mode6 in
    let mode_5g9 = if ltb 1 mode5 then 0 else mode5 in
    byte t (6 + row) (λ b6.
      let six = if has_bit b6 column || mode6 == 2 then mode_6g % 4 * 4 else 0 in
      byte t 4 (λ version.
        if ltb 1 version
        then byte t (13 + row) (λ b5. ok (six + (if has_bit b5 column then mode_5g9 % 4 else 0)))
        else ok six))))

-- The place of a name in the table's bits.
abbrev pub map_with : (ℕ → ℕ → List ℕ → Res ℕ) → ℕ → List ℕ → Res ℕ
map_with get i t = get (i / 8) (7 - i % 8) t

-- mt792x_acpi_parse_mtcl_tbl_v3 with a list, by the places of the code in the lists.
unfoldable pub tbl_v3_at : Option ℕ → Option ℕ → List ℕ → Res ℕ
tbl_v3_at (some i) eu t = map_with get_mtcl_map_v3 i t
tbl_v3_at none (some i) t = get_mtcl_map_v3 3 7 t
tbl_v3_at none none t = ok 0x20

unfoldable pub parse_mtcl_tbl_v3 : AcpiSar → ℕ → List ℕ → Res ℕ
parse_mtcl_tbl_v3 s code t =
    if not (s.ver == 3)
    then ok 0x20
    else tbl_v3_at (index_of cc_list_be code) (index_of cc_list_eu code) t

-- mt792x_acpi_parse_mtcl_tbl with a list
unfoldable pub tbl_at : Option ℕ → Option ℕ → List ℕ → Res ℕ
tbl_at (some i) eu t = map_with get_mtcl_map i t
tbl_at none (some i) t = get_mtcl_map 0 6 t
tbl_at none none t = get_mtcl_map 0 7 t

-- mt792x_acpi_get_mtcl_conf; without a list all bits are set, and `|=` leaves them so.
unfoldable pub conf_with : AcpiSar → ℕ → Option (List ℕ) → Res ℕ
conf_with s code none = ok invalid
conf_with s code (some t) = then_with (parse_mtcl_tbl_v3 s code t) (λ c.
    if c == invalid
    then ok invalid
    else then_with (tbl_at (index_of cc_list_all code) (index_of cc_list_eu code) t)
        (λ m. ok (c + m)))

unfoldable pub get_mtcl_conf : Option AcpiSar → ℕ → Res ℕ
get_mtcl_conf none code = ok invalid
get_mtcl_conf (some s) code = conf_with s code s.countrylist

-- The loop of mt792x_acpi_get_flags, from flag `i` on; `one` and `four` are bits 1 and 2 of the
-- result, for the flags 1 and 4.
unfoldable pub flags_from : ℕ → ℕ → List ℕ → Bool → Bool → Res ℕ
flags_from zero i t one four = ok (1 + (if one then 2 else 0) + (if four then 4 else 0))
flags_from (suc n) i t one four =
    byte t (8 + i) (λ f. flags_from n (suc i) t (one || f == 1) (four || f == 4))

abbrev pub flags_of : Option (List ℕ) → Res ℕ
flags_of none = ok 1
flags_of (some t) = byte t 6 (λ nr_flag. flags_from nr_flag 0 t false false)

unfoldable pub acpi_get_flags : Option AcpiSar → Res ℕ
acpi_get_flags none = ok 0
acpi_get_flags (some s) = flags_of s.fg
