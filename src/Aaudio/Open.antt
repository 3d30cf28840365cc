-- ===== src/Aaudio/Open.antt =====
-- Opening and closing: `open`, `close`, the counters and the state.
use android_audio_samples.Prelude.{
  ℕ, Bool, true, false, not, ◌&&◌, none, some, ℤ, pos, leb, ltb_ℤ, if◌then◌else◌,
}
use android_audio_samples.Definitions.{Result, StreamState, InputPreset, SessionId, is_ok}
use android_audio_samples.StreamBase.{
  AudioStreamBase, Platform, is_input, is_low_latency, is_unspecified, is_data_callback_specified,
}
use android_audio_samples.Aaudio.{Request, Properties, Library, Stream, is_early, forced}

module _ (library : Library) (p : Platform) where
  open library use {
    W, has_usage, has_content_type, has_input_preset, has_session_id, create_builder, open_stream,
    delete_builder, properties, close_stream, stop_stream, state_of, frames_read_of,
    frames_written_of,
  }

  -- An input stream at low latency asks for 4096 frames at least, if for any number.
  unfoldable pub requested_capacity : AudioStreamBase → ℤ
  requested_capacity b =
      if p.workarounds_enabled
        && is_input b
        && not (is_unspecified b.buffer_capacity_in_frames)
        && ltb_ℤ b.buffer_capacity_in_frames (pos 4096)
        && is_low_latency b
      then pos 4096
      else b.buffer_capacity_in_frames

  -- Before Q voice recognition stands in for voice performance.
  unfoldable pub requested_preset : InputPreset → InputPreset
  requested_preset InputPreset.voice_performance =
      if leb p.sdk_version 28 then InputPreset.voice_recognition else InputPreset.voice_performance
  requested_preset preset = preset

  unfoldable pub make_request : AudioStreamBase → Request
  make_request b = record {
    capacity = requested_capacity b;
    channel_count = b.channel_count;
    device_id = b.device_id;
    direction = b.direction;
    format = b.format;
    sample_rate = b.sample_rate;
    sharing_mode = b.sharing_mode;
    performance_mode = b.performance_mode;
    usage = if has_usage then some b.usage else none;
    content_type = if has_content_type then some b.content_type else none;
    input_preset = if has_input_preset then some (requested_preset b.input_preset) else none;
    session_id = if has_session_id then some b.session_id else none;
    frames_per_data_callback =
        if is_data_callback_specified b then some b.frames_per_callback else none;
    error_callback = is_data_callback_specified b;
  }

  -- A stream with a data callback has an error callback: 0 names the stream's own.
  unfoldable pub default_error_callback : AudioStreamBase → AudioStreamBase
  default_error_callback b = elim b.error_callback [
    | some f ↦ b
    | none ↦ if is_data_callback_specified b then record b { error_callback = some 0 } else b
  ]

  -- "Query and cache the stream properties"
  unfoldable pub cache_properties : Properties → Stream → Stream
  cache_properties a s = record s {
    base = record s.base {
      device_id = a.device_id;
      channel_count = a.channel_count;
      sample_rate = a.sample_rate;
      format = a.format;
      sharing_mode = a.sharing_mode;
      performance_mode = a.performance_mode;
      buffer_capacity_in_frames = a.buffer_capacity;
      buffer_size_in_frames = a.buffer_size;
      usage = if has_usage then a.usage else s.base.usage;
      content_type = if has_content_type then a.content_type else s.base.content_type;
      input_preset = if has_input_preset then a.input_preset else s.base.input_preset;
      session_id = if has_session_id then a.session_id else SessionId.none;
    };
    frames_per_burst = a.frames_per_burst;
  }

  -- `open`, from the call of AAudio on. AAudio gives a stream where it succeeds.
  unfoldable pub open_with : Stream → W → Result × Stream × W
  open_with s w =
      let (result, handle, w1) = open_stream (make_request s.base) w in
      let opened = record s { base = default_error_callback s.base; aaudio_stream = handle } in
      let cached : Stream = elim handle [
        | some h ↦ cache_properties (properties h w1) opened
        | none ↦ opened
      ] in
      (result, if is_ok result then cached else opened, delete_builder w1)

  unfoldable pub open_aaudio : Stream → W → Result × Stream × W
  open_aaudio s w =
      let (result, w1) = create_builder w in
      elim s.aaudio_stream [
        | some h ↦ (Result.error_invalid_state, s, w)
        | none ↦ if is_ok result then open_with s w1 else (result, s, w1)
      ]

  unfoldable pub update_frames_read : Stream → W → Stream
  update_frames_read s w = elim s.aaudio_stream [
    | some h ↦ record s { frames_read = frames_read_of h w }
    | none ↦ s
  ]

  unfoldable pub update_frames_written : Stream → W → Stream
  update_frames_written s w = elim s.aaudio_stream [
    | some h ↦ record s { frames_written = frames_written_of h w }
    | none ↦ s
  ]

  unfoldable pub get_state : Stream → W → StreamState
  get_state s w = elim s.aaudio_stream [
    | some h ↦ forced p (state_of h w)
    | none ↦ StreamState.closed
  ]

  abbrev pub is_stopping : StreamState → Bool
  is_stopping StreamState.stopping = true
  is_stopping StreamState.stopped = true
  is_stopping _ = false

  -- `requestStop_l`
  unfoldable pub stop_handle : ℕ → W → Result × W
  stop_handle h w =
      if is_early p && is_stopping (state_of h w) then (Result.ok, w) else stop_stream h w

  -- The result of the stop is not looked at.
  unfoldable pub close_aaudio : Stream → W → Result × Stream × W
  close_aaudio s w =
      let counted = update_frames_read (update_frames_written s w) w in
      let emptied = record counted { aaudio_stream = none } in
      elim s.aaudio_stream [
        | none ↦ (Result.error_closed, emptied, w)
        | some h ↦
            let stopped = if p.workarounds_enabled then (stop_handle h w).1 else w in
            let (result, w') = close_stream h stopped in (result, emptied, w')
      ]
