-- ===== src/OpenSles/Stream/Configuring/Sizes.antt =====
-- The size of a burst, and of the buffers behind it.
use native.Mathlib.Nat.{mul_comm}
use android_audio_samples.Prelude.{
  ℕ, ◌+◌, ◌-◌, ◌*◌, ◌/◌, ◌^◌, ◌≤◌, ◌<◌, ◌≡◌, refl, ap, arith, round_up-le, round_up-lt, Bool, true,
  not, ◌&&◌, Bool-cases, ltb, leb, ◌⊎◌, inl, inr, pos, ltb_ℤ, wrap32, wrap32_pos, wrapped_sum,
  if◌then◌else◌,
}
use android_audio_samples.StreamBase.{AudioStreamBase, Platform, is_low_latency}
use android_audio_samples.MonotonicCounter.{times}
use android_audio_samples.OpenSles.Stream.Configuring.{
  DefaultStreamValues, default_burst, high_latency_frames,
}

-- whether the performance mode asks for no low latency
abbrev pub is_slow : Platform → AudioStreamBase → Bool
is_slow p b = leb 25 p.sdk_version && not (is_low_latency b)

module _ (p : Platform) (defaults : DefaultStreamValues) (b : AudioStreamBase) (r n : ℕ) where
  abbrev high : ℕ
  high = r * 20 / 1000

  abbrev bursts : ℕ
  bursts = (high + n - 1) / n

  high_latency_pos : r * 20 < 2 ^ 31 → high_latency_frames p defaults (pos r) ≡ pos high
  high_latency_pos h = rw (wrap32_pos (r * 20) h) refl

  rounded : 0 < n → high + n < 2 ^ 31 → wrap32 (times (pos n) bursts) ≡ pos (n * bursts)
  rounded h g = wrap32_pos (n * bursts) (omega (arith, round_up-lt high n h, mul_comm n bursts))

  at_least_one : 0 < n → n < high → 1 ≤ bursts
  at_least_one h l = elim (Bool-cases (ltb 0 bursts)) [
    | inl e ↦ ground arith
    | inr e ↦
        let none_at_all : bursts ≡ 0 = ground arith in
        absurd (omega (arith, round_up-le high n h, ap (λ k. k * n) none_at_all))
  ]

  -- For a positive default size `n` and a sample rate without overflow, the burst of a stream whose caller
  -- asks for no size is a whole number of default bursts, one at least. If the stream is not of low latency,
  -- on a platform with performance modes, it has at least `r * 20 / 1000` frames, rounded down, for the sample
  -- rate `r`, and it is the default or the smallest such number; else it is the default.
  pub default_burst_lem :
      defaults.frames_per_burst ≡ pos n
      → 0 < n
      → r * 20 < 2 ^ 31
      → r * 20 / 1000 + n < 2 ^ 31
      → (k : ℕ) × (default_burst p defaults b (pos r) ≡ pos (n * k))
        × (1 ≤ k)
        × ((if is_slow p b then r * 20 / 1000 else 0) ≤ n * k)
        × ((k ≡ 1) ⊎ ((is_slow p b ≡ true) × (n * k < r * 20 / 1000 + n)))
  unfolding default_burst
  default_burst_lem e h f g = elim (Bool-cases (is_slow p b)) [
    | inr fast ↦
        (1, rw (e, fast) (ap pos (omega arith)), omega arith, rw fast (omega arith), inl refl)
    | inl slow ↦ elim (Bool-cases (ltb_ℤ (pos n) (pos high))) [
      | inr long ↦ (
        1,
        rw (e, slow, high_latency_pos f, long) (ap pos (omega arith)),
        omega arith,
        rw slow (ground arith),
        inl refl,
      )
      | inl short ↦
          let l : n < high = ground arith in
          (
            bursts,
            rw
                (
                  e,
                  slow,
                  high_latency_pos f,
                  short,
                  wrapped_sum wrap32 high n h (λ m l. wrap32_pos m (omega (arith, l, g))),
                )
                (rounded h g),
            at_least_one h l,
            rw slow (omega (arith, round_up-le high n h, mul_comm n bursts)),
            inr (slow, omega (arith, round_up-lt high n h, mul_comm n bursts)),
          )
    ]
  ]
