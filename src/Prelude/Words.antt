-- ===== src/Prelude/Words.antt =====
-- Machine words as native numbers: a `w`-bit value is a number below `2 ^ w`, and an `int16_t` is
-- its bit pattern.
use Prim.Native.Nat.{ℕ, ◌+◌, ◌-◌, ◌*◌, ◌/◌, ◌%◌, ◌^◌}
use mathlib.Core.Bool.{Bool}
use atem_esp_idf.Prelude.Tests.{ltb}

abbrev pub u8 : ℕ → ℕ
u8 n = n % 2 ^ 8

abbrev pub u16 : ℕ → ℕ
u16 n = n % 2 ^ 16

abbrev pub u32 : ℕ → ℕ
u32 n = n % 2 ^ 32

infixl 75 ◌<<<◌ ◌>>>◌
abbrev pub ◌<<<◌ : ℕ → ℕ → ℕ
x <<< k = x * 2 ^ k

abbrev pub ◌>>>◌ : ℕ → ℕ → ℕ
x >>> k = x / 2 ^ k

-- The order of the `int16_t` values is that of their patterns with the sign bit turned.
abbrev pub bias : ℕ → ℕ
bias x = (x + 32768) % 65536

-- `a < b` at `int16_t`.
abbrev pub lt_s16 : ℕ → ℕ → Bool
lt_s16 a b = ltb (bias a) (bias b)

-- `abs(a - b)` at `int16_t`, where the difference is an `int`.
abbrev pub abs_diff_s16 : ℕ → ℕ → ℕ
abs_diff_s16 a b = (bias a - bias b) + (bias b - bias a)

abbrev pub int16_min : ℕ
int16_min = 0x8000

abbrev pub int16_max : ℕ
int16_max = 0x7FFF
