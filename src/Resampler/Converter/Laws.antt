-- ===== src/Resampler/Converter/Laws.antt =====
-- What the node promises, and what it does after a reset.
use android_audio_samples.Prelude.{
  ℕ, suc, ◌+◌, ◌*◌, ◌≤◌, ◌<◌, ◌≡◌, refl, arith, List, [], length, true, ltb_ℤ, pos, negsuc,
}
use android_audio_samples.Resampler.{is_write_needed}
use android_audio_samples.Resampler.Delay.{window}
use android_audio_samples.Resampler.Converter.{
  Upstream, SampleRateConverter, reset_converter, get_next_input_frame, frame_at,
  is_input_available, Converted, convert_loop, convert_frames,
}
use android_audio_samples.Resampler.Converter.Balance.{IsReady, shift_all, loop-Converts}

module _ {A : Type 0} (upstream : Upstream A) where
  open upstream use {W}

  -- A converter that is ready, with phase `q` and the ratio of `num` to `den`, ends within more than
  -- `q + n (num + 1)` rounds, and never reads outside of its input: it makes `k` frames, at most the `n`
  -- asked for, and takes `m` frames of input with `q' + m den = q + k num` for the new phase `q'`, so no
  -- fraction of a frame is lost; what a read looks at is then those frames, shifted in, and it is ready again.
  pub convert_frames_lem :
      (fuel n q : ℕ) (c : SampleRateConverter A) (w : W)
      → IsReady q c
      → q + n * suc c.resampler.numerator < fuel
      → (made taken : List A) × (c' : SampleRateConverter A) × (w' : W) × (q' : ℕ) × (convert_frames
            upstream fuel n c w
          ≡ Converted.converted made c' w')
        × (length made ≤ n)
        × (q' + length taken * c.resampler.denominator ≡ q + length made * c.resampler.numerator)
        × (window c'.resampler ≡ shift_all c.resampler.num_taps taken (window c.resampler))
        × IsReady q' c'
  unfolding convert_frames
  convert_frames_lem fuel n q c w r h =
      let d = loop-Converts upstream fuel n q [] c w r h in
      (
        d.more, d.taken, d.converter, d.world, d.phase, d.returned, d.few, d.balance, d.shifts,
        d.ready,
      )

  -- After a reset, a converter whose resampler asks for a frame first reads in front of its buffer, as soon as
  -- a frame is asked of it, whatever its input holds.
  pub convert_frames-reset :
      (fuel n : ℕ) (c : SampleRateConverter A) (w : W)
      → is_write_needed c.resampler ≡ true
      → convert_frames upstream (suc fuel) (suc n) (reset_converter c) w ≡ Converted.reads_outside
  unfolding convert_frames convert_loop reset_converter is_input_available get_next_input_frame
      frame_at
  convert_frames-reset fuel n c w h =
      let before : ltb_ℤ (negsuc 0) (pos (length c.input)) ≡ true = ground arith in
      rw (h, before) refl
