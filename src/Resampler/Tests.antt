-- ===== src/Resampler/Tests.antt =====
-- 44100 Hz to 48000 Hz, with two taps.
use android_audio_samples.Prelude.{
  ◌≡◌, refl, arith, ℕ, ◌+◌, ◌-◌, ◌*◌, ◌≤◌, List, [], ◌∷◌, take, get_or, length, true, some, pos,
  ◌+ℤ◌, ◌-ℤ◌,
}
use android_audio_samples.Resampler.{
  IntegerRatio, primes, reduce, reduce_from, reduce_by, MultiChannelResampler, write_frame,
  is_write_needed, write_next_frame, advance_write, advance_read,
}
use android_audio_samples.Resampler.Ratio.{Reduces, Positive, Clear, reduce_lem}
use android_audio_samples.Resampler.Delay.{IsDelayLine, window, write_frame-window}
use android_audio_samples.Resampler.Converter.{
  Upstream, SampleRateConverter, Converted, convert_frames, convert_loop, reset_converter,
  is_input_available, get_next_input_frame, frame_at, first_of,
}
use android_audio_samples.Resampler.Converter.Balance.{IsReady, shift_all}
use android_audio_samples.Resampler.Converter.Laws.{convert_frames_lem, convert_frames-reset}

abbrev rates : IntegerRatio
rates = record { numerator = 44100; denominator = 48000 }

abbrev reduced : IntegerRatio
reduced = record { numerator = 147; denominator = 160 }

reduce_lem_example :
    (r' : IntegerRatio) × (reduce 44101 rates ≡ some r')
    × Reduces rates r'
    × Positive r'
    × Clear primes r'
reduce_lem_example = reduce_lem 44101 rates (omega arith) (omega arith) (omega arith)

-- A frame is one number here.
abbrev three_taps : MultiChannelResampler ℕ
three_taps = record {
  num_taps = 3;
  cursor = 1;
  x = 5 ∷ 7 ∷ 6 ∷ 5 ∷ 7 ∷ 6 ∷ [];
  integer_phase = pos 3;
  numerator = 2;
  denominator = 3;
}

three_taps-IsDelayLine : IsDelayLine three_taps
three_taps-IsDelayLine = record {
  half = 5 ∷ 7 ∷ 6 ∷ [];
  long = refl;
  twice = refl;
  inside = omega arith;
}

write_frame-window_example :
    (window (write_frame 8 three_taps) ≡ 8 ∷ take (3 - 1) (7 ∷ 6 ∷ 5 ∷ []))
    × IsDelayLine (write_frame 8 three_taps)
write_frame-window_example = write_frame-window 8 three_taps three_taps-IsDelayLine

-- The port gives a buffer of three frames at each call, and a read returns the newest frame.
abbrev upstream : Upstream ℕ
upstream = record {
  W = ℕ;
  pull = λ call w. (w ∷ (w + 1) ∷ (w + 2) ∷ [], w + 3);
  read_frame = λ m w. (get_or (window m) 0 0, w);
}

abbrev fresh : SampleRateConverter ℕ
fresh = record {
  resampler = three_taps;
  input_cursor = pos 0;
  input = [];
  input_call_count = pos 0;
}

fresh-IsReady : IsReady 3 fresh
fresh-IsReady = record {
  phase = refl;
  positive = omega arith;
  delay = three_taps-IsDelayLine;
  place = 0;
  cursor = refl;
}

convert_frames_lem_example :
    (made taken : List ℕ) × (c' : SampleRateConverter ℕ) × (w' : ℕ) × (q' : ℕ) × (convert_frames
        upstream 20 4 fresh 10
      ≡ Converted.converted made c' w')
    × (length made ≤ 4)
    × (q' + length taken * 3 ≡ 3 + length made * 2)
    × (window c'.resampler ≡ shift_all 3 taken (7 ∷ 6 ∷ 5 ∷ []))
    × IsReady q' c'
convert_frames_lem_example = convert_frames_lem upstream 20 4 3 fresh 10 fresh-IsReady (omega arith)

is_needed : is_write_needed three_taps ≡ true
unfolding is_write_needed
is_needed = refl

convert_frames-reset_example :
    convert_frames upstream 20 4 (reset_converter fresh) 10 ≡ Converted.reads_outside
convert_frames-reset_example = convert_frames-reset upstream 19 3 fresh 10 is_needed

-- Three frames of input make four of output, at a ratio of two to three.
four_frames :
    convert_frames upstream 20 4 fresh 10
    ≡ Converted.converted
        (10 ∷ 10 ∷ 11 ∷ 12 ∷ [])
        (record {
          resampler = record {
            num_taps = 3;
            cursor = 1;
            x = 10 ∷ 12 ∷ 11 ∷ 10 ∷ 12 ∷ 11 ∷ [];
            integer_phase = pos 2;
            numerator = 2;
            denominator = 3;
          };
          input_cursor = pos 3;
          input = 10 ∷ 11 ∷ 12 ∷ [];
          input_call_count = pos 1;
        })
        13
unfolding convert_frames convert_loop is_input_available get_next_input_frame frame_at first_of
    is_write_needed write_next_frame write_frame advance_write advance_read ◌+ℤ◌ ◌-ℤ◌
four_frames = refl

cd_rate : reduce 44101 rates ≡ some reduced
unfolding reduce reduce_from reduce_by
cd_rate = refl
