-- ===== src/OpenSles/Stream/Configuring.antt =====
-- Parts of the opening of a stream of OpenSL ES: the configuration and the sizes, of
-- src/opensles/AudioStreamOpenSLES.cpp, src/opensles/AudioOutputStreamOpenSLES.cpp and
-- src/opensles/AudioInputStreamOpenSLES.cpp.
pub mod Sizes
use android_audio_samples.Prelude.{
  ℕ, ◌*◌, Bool, true, false, not, ◌&&◌, List, [], ◌∷◌, replicate, Option, some, none, ltb, leb, ℤ,
  pos, pos_part, ◌+ℤ◌, ◌-ℤ◌, ltb_ℤ, wrap32, if◌then◌else◌,
}
use android_audio_samples.Definitions.{
  Result, StreamState, SharingMode, AudioFormat, PerformanceMode, SessionId, InputPreset, is_ok,
}
use android_audio_samples.StreamBase.{
  AudioStreamBase, Platform, unspecified, is_unspecified, is_input, is_float, is_low_latency,
  convert_format_to_size_in_bytes,
}
use android_audio_samples.MonotonicCounter.{quotient, times, get, new_counter}
use android_audio_samples.OpenSles.Engine.{
  Library, EngineOpenSles, OutputMixerOpenSl, open_engine, open_mixer,
}
use android_audio_samples.OpenSles.Stream.{
  Stream, using_fifo, frames_of_millis, buffered_frames_written, buffered_frames_read,
}
use android_audio_samples.OpenSles.Stream.Formats.{
  PcmFormat, pcm_format, SlPerformance, to_sl_performance, of_sl_performance, StreamType,
  convert_output_usage, RecordingPreset, convert_input_preset,
}
use android_audio_samples.OpenSles.Stream.Transfer.{allocate_fifo}

-- The static fields of `DefaultStreamValues`, which the application may set.
pub record DefaultStreamValues : Type 0 where
  pub sample_rate : ℤ
  pub frames_per_burst : ℤ
  pub channel_count : ℤ

-- The calls of OpenSL ES, with `W` its state; a flag is `SL_RESULT_SUCCESS`. `create_object` is
-- `CreateAudioPlayer` or `CreateAudioRecorder`, `get_control` asks for the interface that plays or records.
pub record OpenSlEs : Type 1 where
  pub W : Type 0
  pub create_engine : W → Bool × W
  pub realize_engine : W → Bool × W
  pub get_engine : W → Bool × W
  pub destroy_engine : W → W
  pub create_output_mix : W → Bool × W
  pub realize_output_mix : W → Bool × W
  pub destroy_output_mix : W → W
  pub create_object : PcmFormat → W → Bool × W
  pub get_configuration : W → Bool × W
  pub set_performance : SlPerformance → W → Bool × W
  pub set_stream_type : StreamType → W → Bool × W
  pub set_recording_preset : RecordingPreset → W → Bool × W
  pub get_performance : W → Bool × SlPerformance × W
  pub realize_object : W → Bool × W
  pub get_control : W → Bool × W
  pub get_queue : W → Bool × W
  pub register_callback : W → Bool × W

abbrev pub engine_calls : OpenSlEs → Library
engine_calls sles = record {
  W = sles.W;
  create = sles.create_engine;
  realize = sles.realize_engine;
  get_interface = sles.get_engine;
  destroy = sles.destroy_engine;
}

abbrev pub mixer_calls : OpenSlEs → Library
mixer_calls sles = record {
  W = sles.W;
  create = sles.create_output_mix;
  realize = sles.realize_output_mix;
  get_interface = sles.get_engine;
  destroy = sles.destroy_output_mix;
}

-- the constructor
unfoldable pub new_stream : AudioStreamBase → Stream
new_stream b = record {
  base = record b { device_id = unspecified; session_id = SessionId.none };
  state = StreamState.uninitialized;
  data_callback_enabled = false;
  control_interface = false;
  queue_interface = false;
  object_interface = false;
  frames_written = pos 0;
  frames_read = pos 0;
  frames_per_burst = unspecified;
  bytes_per_callback = unspecified;
  position_millis = new_counter;
  callback_buffer = [] ∷ [] ∷ [];
  callback_buffer_index = 0;
  fifo_buffer = none;
  x_run_count = pos 0;
  last_background_size = pos 0;
  background_ran_at = pos 0;
}

module _ (p : Platform) (defaults : DefaultStreamValues) where
  -- `framesPerHighLatencyBuffer`, 20 milliseconds
  abbrev pub high_latency_frames : ℤ → ℤ
  high_latency_frames sample_rate = quotient (wrap32 (times sample_rate 20)) 1000

  -- `mFramesPerBurst`, where the caller asks for no size of the callback; the default is positive. The
  -- performance mode counts since N_MR1 (25).
  unfoldable pub default_burst : AudioStreamBase → ℤ → ℤ
  default_burst b sample_rate =
      let burst = defaults.frames_per_burst in
      let high = high_latency_frames sample_rate in
      let bursts = quotient (wrap32 (wrap32 (high +ℤ burst) -ℤ pos 1)) (pos_part burst) in
      if leb 25 p.sdk_version && not (is_low_latency b) && ltb_ℤ burst high
      then wrap32 (times burst (pos_part bursts))
      else burst

  unfoldable pub configure_buffer_sizes : ℤ → Stream → Result × Stream
  configure_buffer_sizes sample_rate s =
      let asked = s.base.frames_per_callback in
      let frames = if is_unspecified asked then default_burst s.base sample_rate else asked in
      let bytes_per_frame =
        convert_format_to_size_in_bytes s.base.format * pos_part s.base.channel_count in
      let bytes = wrap32 (times frames bytes_per_frame) in
      let sized = record s {
        base = record s.base { frames_per_callback = frames };
        frames_per_burst = frames;
        bytes_per_callback = bytes;
      } in
      let buffer = replicate (pos_part bytes) 0 in
      let buffered = record sized { callback_buffer = buffer ∷ buffer ∷ [] } in
      let capacity = wrap32 (times frames 2) in
      let capacity' = if ltb_ℤ (pos 0) capacity then capacity else pos 0 in
      let limited = record buffered {
        base = record buffered.base {
          buffer_capacity_in_frames = capacity';
          buffer_size_in_frames =
              if ltb_ℤ (pos 0) capacity then capacity else s.base.buffer_size_in_frames;
        };
      } in
      if ltb_ℤ (pos 0) bytes
      then if using_fifo s
        then (Result.ok, buffered)
        else (if ltb_ℤ (pos 0) capacity then Result.ok else Result.error_out_of_range, limited)
      else (Result.error_invalid_format, sized)

module _ (p : Platform) (sles : OpenSlEs) where
  open sles use {
    W, get_configuration, set_performance, set_stream_type, set_recording_preset, get_performance,
    get_queue, register_callback,
  }

  abbrev without_mode : AudioStreamBase → AudioStreamBase
  without_mode b = record b { performance_mode = PerformanceMode.none }

  -- With the configuration interface at hand.
  pub configure_performance_mode : AudioStreamBase → W → Bool × AudioStreamBase × W
  configure_performance_mode b w =
      let (succeeded, w') = set_performance (to_sl_performance b.session_id b.performance_mode) w in
      if leb 25 p.sdk_version
      then (succeeded, if succeeded then b else without_mode b, w')
      else (true, without_mode b, w)

  -- `found` says whether there is the configuration interface. Before P (28) the result is not looked at.
  pub update_stream_parameters : Bool → AudioStreamBase → W → Bool × AudioStreamBase × W
  update_stream_parameters found b w =
      let (asked, mode, w') = get_performance w in
      let succeeded = if leb p.sdk_version 27 then true else asked in
      let updated =
        if succeeded
        then record b { performance_mode = of_sl_performance mode }
        else without_mode b in
      if leb 25 p.sdk_version && found then (succeeded, updated, w') else (true, without_mode b, w)

  pub configure_output : AudioStreamBase → W → Bool × AudioStreamBase × W
  configure_output b w =
      let (succeeded, b', w1) = configure_performance_mode b w in
      let (typed, w2) = set_stream_type (convert_output_usage b'.usage) w1 in
      if succeeded then (typed, b', w2) else (false, b', w1)

  abbrev is_voice_recognition : RecordingPreset → Bool
  is_voice_recognition RecordingPreset.voice_recognition = true
  is_voice_recognition _ = false

  abbrev is_voice_performance : InputPreset → Bool
  is_voice_performance InputPreset.voice_performance = true
  is_voice_performance _ = false

  -- A preset that OpenSL ES refuses is replaced by voice recognition.
  pub configure_input : AudioStreamBase → W → Bool × AudioStreamBase × W
  configure_input b w =
      let recognising = record b { input_preset = InputPreset.voice_recognition } in
      let b1 = if is_voice_performance b.input_preset then recognising else b in
      let preset = convert_input_preset b1.input_preset in
      let (accepted, w1) = set_recording_preset preset w in
      let (ignored, w2) = set_recording_preset RecordingPreset.voice_recognition w1 in
      if not accepted && not (is_voice_recognition preset)
      then configure_performance_mode recognising w2
      else configure_performance_mode b1 w1

  unfoldable pub register_buffer_queue_callback : Stream → W → Bool × Stream × W
  register_buffer_queue_callback s w =
      let (found, w1) = get_queue w in
      let (registered, w2) = register_callback w1 in
      if found then (registered, record s { queue_interface = true }, w2) else (false, s, w1)
