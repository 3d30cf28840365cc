-- ===== src/Resampler/Converter.antt =====
-- The node that converts the sample rate: src/flowgraph/SampleRateConverter.cpp.
mod Input
pub mod Balance
pub mod Laws
use android_audio_samples.Prelude.{
  ℕ, zero, suc, ◌==◌, List, [], ◌∷◌, ◌++◌, drop, length, Bool, true, false, ltb, Option, none, some,
  ℤ, pos, negsuc, ◌+ℤ◌, ltb_ℤ, if◌then◌else◌,
}
use android_audio_samples.Resampler.{
  MultiChannelResampler, is_write_needed, write_next_frame, advance_read,
}

-- The input port, which is pulled with a count of calls and holds the frames that came, and `readFrame`,
-- which computes a frame from the delay line.
pub record Upstream (A : Type 0) : Type 1 where
  pub W : Type 0
  pub pull : ℤ → W → List A × W
  pub read_frame : MultiChannelResampler A → W → A × W

-- `input` is the valid part of the port's buffer.
pub record SampleRateConverter (A : Type 0) : Type 0 where
  pub resampler : MultiChannelResampler A
  pub input_cursor : ℤ
  pub input : List A
  pub input_call_count : ℤ

module _ {A : Type 0} where
  -- `reset`: `kInitialCallCount` is -1.
  unfoldable pub reset_converter : SampleRateConverter A → SampleRateConverter A
  reset_converter c = record c { input_cursor = negsuc 0 }

  -- `none` where the frame is not in the buffer.
  unfoldable pub first_of : List A → ℕ → SampleRateConverter A → Option (A × SampleRateConverter A)
  first_of [] i c = none
  first_of (f ∷ fs) i c = some (f, record c { input_cursor = pos (suc i) })

  unfoldable pub frame_at : ℤ → SampleRateConverter A → Option (A × SampleRateConverter A)
  frame_at (negsuc n) c = none
  frame_at (pos i) c = first_of (drop i c.input) i c

  unfoldable pub get_next_input_frame : SampleRateConverter A → Option (A × SampleRateConverter A)
  get_next_input_frame c = frame_at c.input_cursor c

  module _ (upstream : Upstream A) where
    open upstream use {W, pull, read_frame}

    unfoldable pub is_input_available : SampleRateConverter A → W → Bool × SampleRateConverter A × W
    is_input_available c w =
        let call = c.input_call_count +ℤ pos 1 in
        let (frames, w') = pull call w in
        let refilled = record c { input_cursor = pos 0; input = frames; input_call_count = call } in
        if ltb_ℤ c.input_cursor (pos (length c.input))
        then (true, c, w)
        else (ltb 0 (length frames), refilled, w')

    -- How the loop ends: with the frames of the output.
    pub data Converted : Type 0 where
      converted : List A → SampleRateConverter A → W → Converted
      reads_outside : Converted
      out_of_fuel : Converted

    -- The loop, with `framesLeft` and the output so far.
    unfoldable pub convert_loop : ℕ → ℕ → List A → SampleRateConverter A → W → Converted
    convert_loop zero left out c w = Converted.out_of_fuel
    convert_loop (suc fuel) zero out c w = Converted.converted out c w
    convert_loop (suc fuel) (suc left) out c w =
        let (available, c1, w1) = is_input_available c w in
        let (frame, w2) = read_frame c.resampler w in
        let written : Converted = elim (get_next_input_frame c1) [
          | none ↦ Converted.reads_outside
          | some (f, c2) ↦
              convert_loop fuel (suc left) out
                (record c2 { resampler = write_next_frame f c2.resampler }) w1
        ] in
        let read =
          convert_loop fuel left (out ++ frame ∷ [])
            (record c { resampler = advance_read c.resampler }) w2 in
        if is_write_needed c.resampler
        then if available then written else Converted.converted out c1 w1
        else read

    unfoldable pub convert_frames : ℕ → ℕ → SampleRateConverter A → W → Converted
    convert_frames fuel num_frames c w = convert_loop fuel num_frames [] c w
