-- ===== src/OpenSles/Stream/Formats.antt =====
-- How the settings of a stream are told to OpenSL ES: the conversions of
-- src/opensles/AudioStreamOpenSLES.cpp, src/opensles/AudioOutputStreamOpenSLES.cpp,
-- src/opensles/AudioInputStreamOpenSLES.cpp and src/opensles/OpenSLESUtilities.cpp. A constant of OpenSL ES
-- is a constructor with its name.
use android_audio_samples.Prelude.{
  ℕ, ◌-◌, ◌*◌, ◌^◌, Bool, true, false, List, [], ◌∷◌, ◌++◌, Option, ltb, leb, ◌==◌, pos_part,
  to_u32, if◌then◌else◌,
}
use android_audio_samples.Definitions.{AudioFormat, PerformanceMode, SessionId, Usage, InputPreset}
use android_audio_samples.StreamBase.{
  AudioStreamBase, Platform, is_input, convert_format_to_size_in_bytes,
}
use android_audio_samples.MonotonicCounter.{times}

-- `SL_SPEAKER_*`
pub data Speaker : Type 0 where
  front_left front_right back_left back_right front_center low_frequency side_left side_right :
      Speaker

-- A mask of speakers, the bits of the first channels, as such or in `SL_ANDROID_MAKE_INDEXED_CHANNEL_MASK`,
-- or `SL_ANDROID_UNKNOWN_CHANNELMASK`.
pub data ChannelMask : Type 0 where
  speakers : List Speaker → ChannelMask
  bits indexed : ℕ → ChannelMask
  unknown : ChannelMask

-- `__ANDROID_API_N__` is 24.
pub channel_count_to_channel_mask_default : Platform → ℕ → ChannelMask
channel_count_to_channel_mask_default p channel_count =
    let bitfield = 2 ^ channel_count - 1 in
    if ltb 30 channel_count
    then ChannelMask.unknown
    else if leb 24 p.sdk_version
    then ChannelMask.indexed bitfield
    else ChannelMask.bits bitfield

abbrev pub stereo_speakers : List Speaker
stereo_speakers = Speaker.front_left ∷ Speaker.front_right ∷ []

abbrev pub quad_speakers : List Speaker
quad_speakers = stereo_speakers ++ (Speaker.back_left ∷ Speaker.back_right ∷ [])

abbrev pub surround_speakers : List Speaker
surround_speakers = quad_speakers ++ (Speaker.front_center ∷ Speaker.low_frequency ∷ [])

pub output_channel_mask : Platform → ℕ → ChannelMask
output_channel_mask p n =
    if n == 1
    then ChannelMask.speakers (Speaker.front_center ∷ [])
    else if n == 2
    then ChannelMask.speakers stereo_speakers
    else if n == 4
    then ChannelMask.speakers quad_speakers
    else if n == 6
    then ChannelMask.speakers surround_speakers
    else if n == 8
    then ChannelMask.speakers (surround_speakers ++ (Speaker.side_left ∷ Speaker.side_right ∷ []))
    else channel_count_to_channel_mask_default p n

pub input_channel_mask : Platform → ℕ → ChannelMask
input_channel_mask p n =
    if n == 1
    then ChannelMask.speakers (Speaker.front_left ∷ [])
    else if n == 2
    then ChannelMask.speakers stereo_speakers
    else channel_count_to_channel_mask_default p n

-- `SL_ANDROID_PERFORMANCE_*`; `other` is any other value.
pub data SlPerformance : Type 0 where
  none latency latency_effects power_saving other : SlPerformance

abbrev has_session : SessionId → Bool
has_session SessionId.none = false
has_session SessionId.allocate = true

pub to_sl_performance : SessionId → PerformanceMode → SlPerformance
to_sl_performance session PerformanceMode.none = SlPerformance.none
to_sl_performance session PerformanceMode.power_saving = SlPerformance.power_saving
to_sl_performance session PerformanceMode.low_latency =
    if has_session session then SlPerformance.latency_effects else SlPerformance.latency

pub of_sl_performance : SlPerformance → PerformanceMode
of_sl_performance SlPerformance.none = PerformanceMode.none
of_sl_performance SlPerformance.latency = PerformanceMode.low_latency
of_sl_performance SlPerformance.latency_effects = PerformanceMode.low_latency
of_sl_performance SlPerformance.power_saving = PerformanceMode.power_saving
of_sl_performance SlPerformance.other = PerformanceMode.none

-- `SL_ANDROID_STREAM_*`
pub data StreamType : Type 0 where
  media voice alarm notification system : StreamType

pub convert_output_usage : Usage → StreamType
convert_output_usage Usage.media = StreamType.media
convert_output_usage Usage.voice_communication = StreamType.voice
convert_output_usage Usage.voice_communication_signalling = StreamType.voice
convert_output_usage Usage.alarm = StreamType.alarm
convert_output_usage Usage.notification = StreamType.notification
convert_output_usage Usage.notification_ringtone = StreamType.notification
convert_output_usage Usage.notification_event = StreamType.notification
convert_output_usage Usage.assistance_accessibility = StreamType.system
convert_output_usage Usage.assistance_navigation_guidance = StreamType.system
convert_output_usage Usage.assistance_sonification = StreamType.system
convert_output_usage Usage.game = StreamType.media
convert_output_usage Usage.assistant = StreamType.system

-- `SL_ANDROID_RECORDING_PRESET_*`
pub data RecordingPreset : Type 0 where
  none generic camcorder voice_recognition voice_communication unprocessed : RecordingPreset

pub convert_input_preset : InputPreset → RecordingPreset
convert_input_preset InputPreset.generic = RecordingPreset.generic
convert_input_preset InputPreset.camcorder = RecordingPreset.camcorder
convert_input_preset InputPreset.voice_recognition = RecordingPreset.voice_recognition
convert_input_preset InputPreset.voice_performance = RecordingPreset.voice_recognition
convert_input_preset InputPreset.voice_communication = RecordingPreset.voice_communication
convert_input_preset InputPreset.unprocessed = RecordingPreset.unprocessed

-- `SL_ANDROID_PCM_REPRESENTATION_*`, or 0
pub data Representation : Type 0 where
  zero signed_int float : Representation

pub convert_format_to_representation : AudioFormat → Representation
convert_format_to_representation AudioFormat.i16 = Representation.signed_int
convert_format_to_representation AudioFormat.float = Representation.float
convert_format_to_representation _ = Representation.zero

-- `SLDataFormat_PCM`, or with a representation `SLAndroidDataFormat_PCM_EX`. The byte order is that of
-- the machine, the container has the size of the sample, and the queue holds two buffers.
pub record PcmFormat : Type 0 where
  pub num_channels : ℕ
  pub milli_samples_per_sec : ℕ
  pub bits_per_sample : ℕ
  pub channel_mask : ChannelMask
  pub representation : Option Representation

-- An input stream has the extended format since M (23), an output stream since L (21).
abbrev pub is_extended : Platform → AudioStreamBase → Bool
is_extended p b = leb (if is_input b then 23 else 21) p.sdk_version

pub pcm_format : Platform → AudioStreamBase → PcmFormat
pcm_format p b = record {
  num_channels = to_u32 b.channel_count;
  milli_samples_per_sec = to_u32 (times b.sample_rate 1000);
  bits_per_sample = convert_format_to_size_in_bytes b.format * 8;
  channel_mask =
      if is_input b
      then input_channel_mask p (pos_part b.channel_count)
      else output_channel_mask p (pos_part b.channel_count);
  representation =
      if is_extended p b
      then Option.some (convert_format_to_representation b.format)
      else Option.none;
}
