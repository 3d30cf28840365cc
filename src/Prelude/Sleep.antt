-- ===== src/Prelude/Sleep.antt =====
-- Waits that sleep for at most 20 milliseconds at a time.
use Prim.Native.Nat.{ℕ, suc, ◌*◌}
use mathlib.Core.Path.{◌≡◌}
use mathlib.Core.Logic.{◌⊎◌, inl, inr}
use mathlib.Core.Bool.{true}
use native.Mathlib.Omega.{arith}
use android_audio_samples.Prelude.Tests.{if◌then◌else◌, Bool-cases}
use android_audio_samples.Prelude.Int.{ℤ, pos, ◌-ℤ◌, ◌≤ℤ◌, ltb_ℤ}

-- the time left after one sleep, against the fuel
pub shrinks :
    (left m : ℤ) (fuel : ℕ)
    → pos 1 ≤ℤ m
    → left ≤ℤ pos (suc fuel * 20000000)
    → ltb_ℤ (pos 0) left ≡ true
    → (m ≡ pos 20000000) ⊎ (left ≤ℤ m)
    → let nanos = if ltb_ℤ left m then left else m in
      (pos 1 ≤ℤ nanos)
      × ((left -ℤ nanos) ≤ℤ pos (fuel * 20000000))
      × ((nanos ≡ pos 20000000) ⊎ ((left -ℤ nanos) ≤ℤ nanos))
unfolding ◌-ℤ◌
shrinks left m fuel a b c d = elim (Bool-cases (ltb_ℤ left m)) [
  | inl e ↦ rw e (ground arith, ground arith, inr (ground arith))
  | inr e ↦ elim d [
    | inl full ↦ rw e (a, (rw full (ground arith)), inl full)
    | inr last ↦ rw e (a, ground arith, inr (ground arith))
  ]
]
