-- ===== src/OpenSles/Stream/Opening.antt =====
-- Opening a stream of OpenSL ES: `open` of src/opensles/AudioOutputStreamOpenSLES.cpp,
-- src/opensles/AudioInputStreamOpenSLES.cpp and src/opensles/AudioStreamOpenSLES.cpp, with the two objects
-- that all streams share.
mod SetUp
mod Laws
mod Tests
use android_audio_samples.Prelude.{
  ℕ, Bool, true, false, not, ◌&&◌, List, Option, some, none, ltb, ℤ, pos, if◌then◌else◌,
}
use android_audio_samples.Definitions.{Result, StreamState, SharingMode, AudioFormat, is_ok}
use android_audio_samples.StreamBase.{
  AudioStreamBase, Platform, is_unspecified, is_input, is_float, same_format,
}
use android_audio_samples.MonotonicCounter.{get}
use android_audio_samples.OpenSles.Engine.{
  EngineOpenSles, OutputMixerOpenSl, open_engine, open_mixer,
}
use android_audio_samples.OpenSles.Stream.{
  Stream, using_fifo, frames_of_millis, buffered_frames_written, buffered_frames_read,
}
use android_audio_samples.OpenSles.Stream.Formats.{PcmFormat, pcm_format}
use android_audio_samples.OpenSles.Stream.Transfer.{allocate_fifo}
use android_audio_samples.OpenSles.Stream.Configuring.{
  DefaultStreamValues, OpenSlEs, engine_calls, mixer_calls, configure_buffer_sizes,
  configure_output, configure_input, update_stream_parameters, register_buffer_queue_callback,
}

-- Before L (21), and for an input before M (23), there are no samples in floating point.
abbrev pub has_float : Platform → AudioStreamBase → Bool
has_float p b = not (ltb p.sdk_version (if is_input b then 23 else 21))

pub default_format : Platform → AudioStreamBase → AudioStreamBase
default_format p b =
    if same_format b.format AudioFormat.unspecified
    then record b { format = if has_float p b then AudioFormat.float else AudioFormat.i16 }
    else b

-- `AudioStreamOpenSLES::open`, after the engine is open
pub default_values : DefaultStreamValues → AudioStreamBase → AudioStreamBase
default_values d b = record b {
  sample_rate = if is_unspecified b.sample_rate then d.sample_rate else b.sample_rate;
  channel_count = if is_unspecified b.channel_count then d.channel_count else b.channel_count;
  sharing_mode = SharingMode.shared;
}

-- `AudioStream::close` of an output stream without a play interface, which only updates the counters.
pub update_counters : Stream → Stream
update_counters s =
    let written = buffered_frames_written s in
    if using_fifo s
    then buffered_frames_read written
    else record written { frames_read = frames_of_millis written (get written.position_millis) }

module _ (p : Platform) (defaults : DefaultStreamValues) (sles : OpenSlEs) where
  open sles use {W, create_object, get_configuration, realize_object, get_control}

  -- From the creation of the player or recorder to the end; the result is false at the label `error`.
  -- `heap` is what the storage of the FIFO holds.
  pub set_up : List ℕ → Stream → W → Bool × Stream × W
  set_up heap s w =
      let (created, w1) = create_object (pcm_format p s.base) w in
      let s1 = record s { object_interface = true } in
      let (found, w2) = get_configuration w1 in
      let (configured, b2, w3) =
        if found
        then (if is_input s.base
            then configure_input p sles s.base w2
            else configure_output p sles s.base w2)
        else (true, s.base, w2) in
      let s2 = record s1 { base = b2 } in
      let (realized, w4) = realize_object w3 in
      let (has_control, w5) = get_control w4 in
      let s3 = record s2 { control_interface = true } in
      let (registered, s4, w6) = register_buffer_queue_callback p sles s3 w5 in
      let (updated, b5, w7) = update_stream_parameters p sles found s4.base w6 in
      let s5 = record s4 { base = b5 } in
      let (result, s6) = configure_buffer_sizes p defaults s5.base.sample_rate s5 in
      if not created
      then (false, s, w1)
      else if not configured
      then (false, s2, w3)
      else if not realized
      then (false, s2, w4)
      else if not has_control
      then (false, s2, w5)
      else if not registered
      then (false, s4, w6)
      else if not updated
      then (false, s5, w7)
      else if not (is_ok result)
      then (false, s6, w7)
      else (true, record (allocate_fifo heap s6) { state = StreamState.opened }, w7)

  -- The engine, the output mix and the state of OpenSL ES.
  pub record System : Type 0 where
    pub engine : EngineOpenSles
    pub mixer : OutputMixerOpenSl
    pub outside : W

  -- What `open` returns, if its thread goes on.
  abbrev pub Answer : Type 0
  Answer = Option (Result × Stream × System)

  pub finish_open : List ℕ → Stream → System → Answer
  finish_open heap s y =
      let (succeeded, s', w') = set_up heap s y.outside in
      some (if succeeded then Result.ok else Result.error_internal, s', record y { outside = w' })

  -- the output mix, for an output stream
  pub with_mixer : List ℕ → Stream → System → Answer
  with_mixer heap s y = elim (open_mixer (mixer_calls sles) y.mixer y.outside) [
    | none ↦ none
    | some (succeeded, mixer, w') ↦
        let y' = record y { mixer = mixer; outside = w' } in
        if succeeded
        then finish_open heap s y'
        else some (Result.error_internal, update_counters s, y')
  ]

  pub with_engine : List ℕ → Stream → System → Answer
  with_engine heap s y = elim (open_engine (engine_calls sles) y.engine y.outside) [
    | none ↦ none
    | some (succeeded, engine, w') ↦
        let y' = record y { engine = engine; outside = w' } in
        let s' = record s { base = default_values defaults s.base } in
        if succeeded
        then (if is_input s.base then finish_open heap s' y' else with_mixer heap s' y')
        else some (Result.error_internal, s, y')
  ]

  pub open_sles : List ℕ → Stream → System → Answer
  open_sles heap s y =
      if not (has_float p s.base) && is_float s.base
      then some (Result.error_invalid_format, s, y)
      else with_engine heap (record s { base = default_format p s.base }) y
