-- ===== src/Prelude/Words.antt =====
-- Machine integers: a `uintN_t` is its number below 2 ^ N, an `intN_t` the integer it stands for,
-- and a cast goes through the bit pattern.
use Prim.Native.Nat.{ℕ, ◌-◌, ◌%◌, ◌^◌, ◌<◌}
use mathlib.Core.Path.{◌≡◌}
use native.Mathlib.Omega.{arith}
use android_audio_samples.Prelude.Tests.{ltb, if◌then◌else◌}
use android_audio_samples.Prelude.Int.{ℤ, pos, negsuc, ◌≤ℤ◌, ◌<ℤ◌}

abbrev pub u32 : ℕ → ℕ
u32 n = n % 2 ^ 32

abbrev pub u64 : ℕ → ℕ
u64 n = n % 2 ^ 64

-- (uint32_t) z and (uint64_t) z
abbrev pub to_u32 : ℤ → ℕ
to_u32 (pos n) = u32 n
to_u32 (negsuc n) = 2 ^ 32 - 1 - u32 n

abbrev pub to_u64 : ℤ → ℕ
to_u64 (pos n) = u64 n
to_u64 (negsuc n) = 2 ^ 64 - 1 - u64 n

-- (int32_t) w of a pattern below 2 ^ 32
unfoldable pub i32 : ℕ → ℤ
i32 w = if ltb w (2 ^ 31) then pos w else negsuc (2 ^ 32 - 1 - w)

-- (int32_t) z, of an integer of any width: what a 32-bit operation leaves of the exact result
unfoldable pub wrap32 : ℤ → ℤ
unfolding i32
wrap32 z = i32 (to_u32 z)

pub i32_small : (n : ℕ) → n < 2 ^ 31 → i32 n ≡ pos n
unfolding i32
i32_small n h = ground arith

pub wrap32_pos : (n : ℕ) → n < 2 ^ 31 → wrap32 (pos n) ≡ pos n
unfolding wrap32
wrap32_pos n h = ground arith

pub wrap32_negsuc : (n : ℕ) → n < 2 ^ 31 → wrap32 (negsuc n) ≡ negsuc n
unfolding wrap32
wrap32_negsuc n h = ground arith

-- What a 64-bit operation leaves of the exact result, as an `int64_t`.
unfoldable pub wrap64 : ℤ → ℤ
wrap64 z = let w = to_u64 z in if ltb w (2 ^ 63) then pos w else negsuc (2 ^ 64 - 1 - w)

pub wrap64_pos : (n : ℕ) → n < 2 ^ 63 → wrap64 (pos n) ≡ pos n
unfolding wrap64
wrap64_pos n h = ground arith

pub wrap64_small : (z : ℤ) → negsuc (2 ^ 63 - 1) ≤ℤ z → z <ℤ pos (2 ^ 63) → wrap64 z ≡ z
unfolding wrap64
wrap64_small z h k = ground arith
