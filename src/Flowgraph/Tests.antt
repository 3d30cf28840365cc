-- ===== src/Flowgraph/Tests.antt =====
-- Three frames of mono spread to stereo and back, and a frame of two channels made into five.
use android_audio_samples.Prelude.{ℕ, ◌+◌, ◌%◌, ◌≡◌, refl, arith, List, [], ◌∷◌, get_or}
use android_audio_samples.Flowgraph.{
  mono_to_multi, multi_to_mono, many_to_multi, frame_of, convert_frame, channel_count_converter,
}
use android_audio_samples.Flowgraph.Channels.{multi_to_mono-mono_to_multi, convert_frame-get}

abbrev mono : List ℕ
mono = 7 ∷ 8 ∷ 9 ∷ []

mono_to_stereo : mono_to_multi 0 2 3 mono ≡ 7 ∷ 7 ∷ 8 ∷ 8 ∷ 9 ∷ 9 ∷ []
unfolding mono_to_multi
mono_to_stereo = refl

multi_to_mono-mono_to_multi_example : multi_to_mono 0 2 3 (mono_to_multi 0 2 3 mono) ≡ mono
multi_to_mono-mono_to_multi_example = multi_to_mono-mono_to_multi 0 2 3 mono (omega arith) refl

interleaved : many_to_multi {A = ℕ} 0 2 0 ((1 ∷ 2 ∷ []) ∷ (3 ∷ 4 ∷ []) ∷ []) ≡ 1 ∷ 3 ∷ 2 ∷ 4 ∷ []
unfolding many_to_multi frame_of
interleaved = refl

-- The third output of a stereo frame is the first sample of the next frame.
next_frame : channel_count_converter {A = ℕ} 0 2 5 1 (1 ∷ 2 ∷ 30 ∷ []) ≡ 1 ∷ 2 ∷ 30 ∷ 1 ∷ 2 ∷ []
unfolding channel_count_converter convert_frame
next_frame = refl

convert_frame-get_example :
    get_or {A = ℕ} (convert_frame 0 2 5 0 (1 ∷ 2 ∷ 30 ∷ [])) 2 0
    ≡ get_or (1 ∷ 2 ∷ 30 ∷ []) ((0 + 2) % (2 + 1)) 0
convert_frame-get_example =
    convert_frame-get 0 2 5 0 2 (1 ∷ 2 ∷ 30 ∷ []) (omega arith) (omega arith)
