-- ===== src/Flowgraph.antt =====
-- The nodes of the flow graph that only move samples: src/flowgraph/MonoToMultiConverter.cpp,
-- src/flowgraph/MultiToMonoConverter.cpp, src/flowgraph/ManyToMultiConverter.cpp and
-- src/flowgraph/ChannelCountConverter.cpp. A sample is of any type, with a value that stands for what
-- lies outside of a buffer; a buffer is a list of interleaved samples.
mod Pull
mod Channels
mod Tests
use android_audio_samples.Prelude.{
  ℕ, zero, suc, ◌+◌, List, [], ◌∷◌, ◌++◌, get_or, drop, replicate, ◌==◌, if◌then◌else◌,
}

module _ {A : Type 0} (outside : A) where
  -- `onProcess` of each node, for so many frames; it returns the output buffer.
  pub mono_to_multi : ℕ → ℕ → List A → List A
  mono_to_multi channel_count zero input = []
  mono_to_multi channel_count (suc frames) input =
      replicate channel_count (get_or input 0 outside)
      ++ mono_to_multi channel_count frames (drop 1 input)

  pub multi_to_mono : ℕ → ℕ → List A → List A
  multi_to_mono channel_count zero input = []
  multi_to_mono channel_count (suc frames) input =
      get_or input 0 outside ∷ multi_to_mono channel_count frames (drop channel_count input)

  -- the samples of frame `i` of the inputs, one of each
  pub frame_of : ℕ → List (List A) → List A
  frame_of i [] = []
  frame_of i (input ∷ inputs) = get_or input i outside ∷ frame_of i inputs

  -- from frame `i` on
  pub many_to_multi : ℕ → ℕ → List (List A) → List A
  many_to_multi zero i inputs = []
  many_to_multi (suc frames) i inputs = frame_of i inputs ++ many_to_multi frames (i + 1) inputs

  -- The inner loop of the channel count converter, with its `inputChannel`.
  pub convert_frame : ℕ → ℕ → ℕ → List A → List A
  convert_frame input_channels zero input_channel input = []
  convert_frame input_channels (suc outputs) input_channel input =
      get_or input input_channel outside
      ∷ convert_frame input_channels outputs
          (if input_channel == input_channels then 0 else input_channel + 1) input

  pub channel_count_converter : ℕ → ℕ → ℕ → List A → List A
  channel_count_converter input_channels output_channels zero input = []
  channel_count_converter input_channels output_channels (suc frames) input =
      convert_frame input_channels output_channels 0 input
      ++ channel_count_converter input_channels output_channels frames (drop input_channels input)
