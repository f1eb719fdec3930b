-- ===== src/Common/Signed.antt =====
-- Signed machine integers as their bits: a byte stands for an s8, a number below 2 ^ 32 for an s32.
use Prim.Native.Nat.{ℕ, ◌+◌, ◌%◌, ◌≤◌, ◌<◌}
use mathlib.Core.Path.{◌≡◌}
use native.Mathlib.Omega.{arith}
use mt.Common.Tests.{ltb, if◌then◌else◌}

-- The order of s8 is the order of these.
abbrev pub rank8 : ℕ → ℕ
rank8 x = (x + 128) % 256

-- min_t(s8, a, b)
abbrev pub min8 : ℕ → ℕ → ℕ
min8 a b = if ltb (rank8 a) (rank8 b) then a else b

abbrev pub add8 : ℕ → ℕ → ℕ
add8 a b = (a + b) % 256

-- max(a, b) of s8
abbrev pub max8 : ℕ → ℕ → ℕ
max8 a b = if ltb (rank8 b) (rank8 a) then a else b

-- An s32 is a number below 2 ^ 32; an s8 becomes one by its sign.
abbrev pub rank32 : ℕ → ℕ
rank32 x = (x + 2147483648) % 4294967296

abbrev pub min32 : ℕ → ℕ → ℕ
min32 a b = if ltb (rank32 a) (rank32 b) then a else b

abbrev pub extend : ℕ → ℕ
extend x = if ltb x 128 then x else x + 4294967040

pub extend_rank : (x : ℕ) → x < 256 → rank32 (extend x) ≡ rank8 x + 2147483520
extend_rank x h = ground arith

pub min32-left : (a b : ℕ) → rank32 (min32 a b) ≤ rank32 a
min32-left a b = ground arith

pub min32-right : (a b : ℕ) → rank32 (min32 a b) ≤ rank32 b
min32-right a b = ground arith
