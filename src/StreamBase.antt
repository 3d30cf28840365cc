-- ===== src/StreamBase.antt =====
-- What a stream and a builder have in common: include/oboe/AudioStreamBase.h, and the choice of the
-- native interface by the builder (include/oboe/AudioStreamBuilder.h, src/common/AudioStreamBuilder.cpp).
-- A callback is the number of the object that a pointer names, if it is not null. The package name
-- and the attribution tag, which only go to the platform, are left out.
mod Choice
mod Tests
use android_audio_samples.Prelude.{
  ℕ, Bool, true, false, ◌&&◌, ◌||◌, not, Option, none, some, ℤ, pos, leb, eqb_ℤ, if◌then◌else◌,
}
use android_audio_samples.Definitions.{
  Result, SharingMode, AudioFormat, Direction, PerformanceMode, Usage, ContentType, InputPreset,
  SessionId, SampleRateConversionQuality, AudioApi, audio_format_code,
}

abbrev pub unspecified : ℤ
unspecified = pos 0

pub record AudioStreamBase : Type 0 where
  pub data_callback : Option ℕ
  pub error_callback : Option ℕ
  pub frames_per_callback : ℤ
  pub channel_count : ℤ
  pub sample_rate : ℤ
  pub device_id : ℤ
  pub buffer_capacity_in_frames : ℤ
  pub buffer_size_in_frames : ℤ
  pub sharing_mode : SharingMode
  pub format : AudioFormat
  pub direction : Direction
  pub performance_mode : PerformanceMode
  pub usage : Usage
  pub content_type : ContentType
  pub input_preset : InputPreset
  pub session_id : SessionId
  pub channel_conversion_allowed : Bool
  pub format_conversion_allowed : Bool
  pub sample_rate_conversion_quality : SampleRateConversionQuality
  pub audio_api : AudioApi

-- `mAudioApi` is the builder's own field, unspecified at first.
abbrev pub default_base : AudioStreamBase
default_base = record {
  data_callback = none;
  error_callback = none;
  frames_per_callback = unspecified;
  channel_count = unspecified;
  sample_rate = unspecified;
  device_id = unspecified;
  buffer_capacity_in_frames = unspecified;
  buffer_size_in_frames = unspecified;
  sharing_mode = SharingMode.shared;
  format = AudioFormat.unspecified;
  direction = Direction.output;
  performance_mode = PerformanceMode.none;
  usage = Usage.media;
  content_type = ContentType.music;
  input_preset = InputPreset.voice_recognition;
  session_id = SessionId.none;
  channel_conversion_allowed = false;
  format_conversion_allowed = false;
  sample_rate_conversion_quality = SampleRateConversionQuality.none;
  audio_api = AudioApi.unspecified;
}

abbrev pub is_data_callback_specified : AudioStreamBase → Bool
is_data_callback_specified b = elim b.data_callback [ some f ↦ true | none ↦ false ]

abbrev pub is_low_latency : AudioStreamBase → Bool
is_low_latency b = elim b.performance_mode [ PerformanceMode.low_latency ↦ true | _ ↦ false ]

abbrev pub is_input : AudioStreamBase → Bool
is_input b = elim b.direction [ Direction.input ↦ true | _ ↦ false ]

abbrev pub is_float : AudioStreamBase → Bool
is_float b = elim b.format [ AudioFormat.float ↦ true | _ ↦ false ]

-- `getSampleRateConversionQuality() != SampleRateConversionQuality::None`
abbrev pub converts_rate : AudioStreamBase → Bool
converts_rate b = elim b.sample_rate_conversion_quality [
  | SampleRateConversionQuality.none ↦ false
  | _ ↦ true
]

-- Only the invalid format is refused: every quality of the enumeration passes.
unfoldable pub is_valid_config : AudioStreamBase → Result
is_valid_config b = elim b.format [
  | AudioFormat.invalid ↦ Result.error_invalid_format
  | _ ↦ Result.ok
]

-- Bytes of a sample, 0 for the formats that have none.
unfoldable pub convert_format_to_size_in_bytes : AudioFormat → ℕ
convert_format_to_size_in_bytes AudioFormat.i16 = 2
convert_format_to_size_in_bytes AudioFormat.float = 4
convert_format_to_size_in_bytes AudioFormat.i24 = 3
convert_format_to_size_in_bytes AudioFormat.i32 = 4
convert_format_to_size_in_bytes _ = 0

-- What the platform tells the library of the device. Whether AAudio can be loaded is asked of the
-- platform.
pub record Platform : Type 0 where
  pub sdk_version : ℕ
  pub aaudio_supported : Bool
  pub workarounds_enabled : Bool

-- `__ANDROID_API_O_MR1__` is 27.
unfoldable pub is_aaudio_recommended : Platform → Bool
is_aaudio_recommended p = leb 27 p.sdk_version && p.aaudio_supported

unfoldable pub will_use_aaudio : Platform → AudioStreamBase → Bool
unfolding is_aaudio_recommended
will_use_aaudio p b = elim b.audio_api [
  | AudioApi.aaudio ↦ p.aaudio_supported
  | AudioApi.unspecified ↦ is_aaudio_recommended p
  | AudioApi.open_sles ↦ false
]

-- the class of the stream that `build` makes
pub data Backend : Type 0 where
  aaudio_stream output_open_sles input_open_sles : Backend

abbrev pub is_open_sles : AudioApi → Bool
is_open_sles AudioApi.open_sles = true
is_open_sles _ = false

abbrev pub is_aaudio : AudioApi → Bool
is_aaudio AudioApi.aaudio = true
is_aaudio _ = false

unfoldable pub build : Platform → AudioStreamBase → Backend
unfolding is_aaudio_recommended
build p b =
    if is_aaudio_recommended p && not (is_open_sles b.audio_api)
    then Backend.aaudio_stream
    else if p.aaudio_supported && is_aaudio b.audio_api
    then Backend.aaudio_stream
    else if is_input b
    then Backend.input_open_sles
    else Backend.output_open_sles

-- Equality of two formats, by their values.
unfoldable pub same_format : AudioFormat → AudioFormat → Bool
unfolding audio_format_code
same_format f g = eqb_ℤ (audio_format_code f) (audio_format_code g)

abbrev pub is_unspecified : ℤ → Bool
is_unspecified n = eqb_ℤ n unspecified

-- The request against an opened stream.
unfoldable pub is_compatible : AudioStreamBase → AudioStreamBase → Bool
is_compatible b other =
    (is_unspecified b.sample_rate || eqb_ℤ b.sample_rate other.sample_rate)
    && (same_format b.format AudioFormat.unspecified || same_format b.format other.format)
    && (is_unspecified b.frames_per_callback
        || eqb_ℤ b.frames_per_callback other.frames_per_callback)
    && (is_unspecified b.channel_count || eqb_ℤ b.channel_count other.channel_count)
