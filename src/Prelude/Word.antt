-- ===== src/Prelude/Word.antt =====
-- Machine integers as numbers: a `u32` is its value, and an `i32` its 32-bit two's complement
-- pattern, so that a cast between the two leaves the number as it is.
use Prim.Native.Nat.{ℕ, ◌+◌, ◌-◌, ◌%◌, bit_and}
use mathlib.Core.Bool.{Bool, not}
use inotify_tools.Prelude.Tests.{◌==◌, leb}

abbrev pub u16_mod : ℕ
u16_mod = 0x10000

abbrev pub u32_mod : ℕ
u32_mod = 0x100000000

abbrev pub u64_mod : ℕ
u64_mod = 0x10000000000000000

-- the pattern of -1
abbrev pub minus_one : ℕ
minus_one = 0xffffffff

abbrev pub i32_min : ℕ
i32_min = 0x80000000

-- `w < 0`
abbrev pub is_neg : ℕ → Bool
is_neg w = leb i32_min w

-- `w <= 0`
abbrev pub le_zero : ℕ → Bool
le_zero w = elim (w == 0) [ Bool.true ↦ Bool.true | Bool.false ↦ is_neg w ]

-- The order of `i32` values, on the patterns: adding 2^31 carries it to that of the numbers.
abbrev pub bias : ℕ → ℕ
bias w = (w + i32_min) % u32_mod

-- `wrapping_add(1)`
abbrev pub wrapping_inc : ℕ → ℕ
wrapping_inc w = (w + 1) % u32_mod

abbrev pub wrapping_neg : ℕ → ℕ
wrapping_neg w = (u32_mod - w) % u32_mod

-- `mask & flag != 0`
abbrev pub has : ℕ → ℕ → Bool
has mask flag = not (bit_and mask flag == 0)

-- `as i64 as u64` of an `i32`
abbrev pub sign_extend : ℕ → ℕ
sign_extend w = elim (is_neg w) [ Bool.true ↦ w + (u64_mod - u32_mod) | Bool.false ↦ w ]
