-- ===== src/Std/Int.antt =====
-- Signed integers over the native numbers, and the casts between machine integers.
use ethereum_elc.Base.{ℕ, ◌-◌, ◌%◌, Option, none, some, ltb, if◌then◌else◌}

-- `negsuc n` is -(n + 1).
pub data ℤ : Type 0 where
  pos : ℕ → ℤ
  negsuc : ℕ → ℤ

abbrev pub u64_mod : ℕ
u64_mod = 18446744073709551616

abbrev pub i64_bound : ℕ
i64_bound = 9223372036854775808

abbrev pub u32_mod : ℕ
u32_mod = 4294967296

abbrev pub i32_bound : ℕ
i32_bound = 2147483648

-- The two's complement reading of the low bits of `n`, where `half` is the sign bit.
abbrev pub as_signed : ℕ → ℕ → ℕ → ℤ
as_signed modulus half n =
    let m = n % modulus in if ltb m half then pos m else negsuc (modulus - m - 1)

-- `n as i64`
abbrev pub as_i64 : ℕ → ℤ
as_i64 n = as_signed u64_mod i64_bound n

-- `n as i32`
abbrev pub as_i32 : ℕ → ℤ
as_i32 n = as_signed u32_mod i32_bound n

-- `n as usize` on a target with 64-bit pointers.
abbrev pub as_usize : ℕ → ℕ
as_usize n = n % u64_mod

-- `i64::try_from(n)` for `n : u64`
abbrev pub i64_try_from : ℕ → Option ℤ
i64_try_from n = if ltb n i64_bound then some (pos n) else none

-- `u32::try_from(n)` for `n : i32`
abbrev pub u32_try_from : ℤ → Option ℕ
u32_try_from (pos n) = if ltb n u32_mod then some n else none
u32_try_from (negsuc n) = none
