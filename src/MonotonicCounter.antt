-- ===== src/MonotonicCounter.antt =====
-- The 64-bit counter that follows a wrapping 32-bit one: src/common/MonotonicCounter.h.
-- `int64_t` sums that overflow, which the source leaves undefined, wrap here.
mod Laws
mod Tests
use android_audio_samples.Prelude.{
  ℕ, suc, ◌*◌, ◌/◌, ℤ, pos, negsuc, ◌+ℤ◌, ◌-ℤ◌, ltb_ℤ, wrap32, wrap64, if◌then◌else◌,
}

pub record MonotonicCounter : Type 0 where
  pub counter64 : ℤ
  pub counter32 : ℤ

pub new_counter : MonotonicCounter
new_counter = record { counter64 = pos 0; counter32 = pos 0 }

-- Each method returns the new counter; `get` of it is what `increment` and `update32` return.
pub get : MonotonicCounter → ℤ
get c = c.counter64

pub set : ℤ → MonotonicCounter → MonotonicCounter
set counter c = record c { counter64 = counter }

pub increment : ℤ → MonotonicCounter → MonotonicCounter
increment delta c =
    if ltb_ℤ (pos 0) delta then record c { counter64 = wrap64 (c.counter64 +ℤ delta) } else c

-- The `int32_t` difference wraps.
pub update32 : ℤ → MonotonicCounter → MonotonicCounter
update32 counter32 c =
    let delta = wrap32 (counter32 -ℤ c.counter32) in
    if ltb_ℤ (pos 0) delta
    then record { counter64 = wrap64 (c.counter64 +ℤ delta); counter32 = counter32 }
    else c

pub reset32 : MonotonicCounter → MonotonicCounter
reset32 c = record c { counter32 = pos 0 }

-- Division by a positive number, towards zero.
abbrev pub quotient : ℤ → ℕ → ℤ
quotient (pos n) d = pos (n / d)
quotient (negsuc n) d = pos 0 -ℤ pos (suc n / d)

abbrev pub times : ℤ → ℕ → ℤ
times (pos n) d = pos (n * d)
times (negsuc n) d = pos 0 -ℤ pos (suc n * d)

round_up_by : ℤ → MonotonicCounter → MonotonicCounter
round_up_by (pos period) c =
    if ltb_ℤ (pos 0) (pos period)
    then record c {
      counter64 =
          wrap64
            (times (quotient (wrap64 (wrap64 (c.counter64 +ℤ pos period) -ℤ pos 1)) period) period);
    }
    else c
round_up_by (negsuc period) c = c

pub round_up64 : ℤ → MonotonicCounter → MonotonicCounter
unfolding round_up_by
round_up64 period c = round_up_by period c
