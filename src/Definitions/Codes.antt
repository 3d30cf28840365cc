-- ===== src/Definitions/Codes.antt =====
-- No two constructors of an enumeration share a value.
use android_audio_samples.Prelude.{
  ◌≡◌, refl, ◌∙◌, ap, sym, some, eqb_ℤ, List, [], ◌∷◌, cc_of_some, first_with,
}
use android_audio_samples.Definitions.{
  StreamState, Direction, AudioFormat, DataCallbackResult, Result, SharingMode, PerformanceMode,
  AudioApi, SampleRateConversionQuality, Usage, ContentType, InputPreset, SessionId, ChannelCount,
  stream_state_code, direction_code, audio_format_code, data_callback_result_code, result_code,
  sharing_mode_code, performance_mode_code, audio_api_code, sample_rate_conversion_quality_code,
  usage_code, content_type_code, input_preset_code, session_id_code, channel_count_code,
}

abbrev pub all_stream_state : List StreamState
all_stream_state =
    StreamState.uninitialized ∷ StreamState.unknown ∷ StreamState.opened ∷ StreamState.starting
    ∷ StreamState.started ∷ StreamState.pausing ∷ StreamState.paused ∷ StreamState.flushing
    ∷ StreamState.flushed ∷ StreamState.stopping ∷ StreamState.stopped ∷ StreamState.closing
    ∷ StreamState.closed ∷ StreamState.disconnected ∷ []

stream_state_of_code :
    (x : StreamState)
    → first_with (λ y. eqb_ℤ (stream_state_code y) (stream_state_code x)) all_stream_state ≡ some x
unfolding stream_state_code first_with
stream_state_of_code StreamState.uninitialized = refl
stream_state_of_code StreamState.unknown = refl
stream_state_of_code StreamState.opened = refl
stream_state_of_code StreamState.starting = refl
stream_state_of_code StreamState.started = refl
stream_state_of_code StreamState.pausing = refl
stream_state_of_code StreamState.paused = refl
stream_state_of_code StreamState.flushing = refl
stream_state_of_code StreamState.flushed = refl
stream_state_of_code StreamState.stopping = refl
stream_state_of_code StreamState.stopped = refl
stream_state_of_code StreamState.closing = refl
stream_state_of_code StreamState.closed = refl
stream_state_of_code StreamState.disconnected = refl

abbrev pub all_direction : List Direction
all_direction = Direction.output ∷ Direction.input ∷ []

direction_of_code :
    (x : Direction)
    → first_with (λ y. eqb_ℤ (direction_code y) (direction_code x)) all_direction ≡ some x
unfolding direction_code first_with
direction_of_code Direction.output = refl
direction_of_code Direction.input = refl

abbrev pub all_audio_format : List AudioFormat
all_audio_format =
    AudioFormat.invalid ∷ AudioFormat.unspecified ∷ AudioFormat.i16 ∷ AudioFormat.float
    ∷ AudioFormat.i24 ∷ AudioFormat.i32 ∷ []

audio_format_of_code :
    (x : AudioFormat)
    → first_with (λ y. eqb_ℤ (audio_format_code y) (audio_format_code x)) all_audio_format ≡ some x
unfolding audio_format_code first_with
audio_format_of_code AudioFormat.invalid = refl
audio_format_of_code AudioFormat.unspecified = refl
audio_format_of_code AudioFormat.i16 = refl
audio_format_of_code AudioFormat.float = refl
audio_format_of_code AudioFormat.i24 = refl
audio_format_of_code AudioFormat.i32 = refl

abbrev pub all_data_callback_result : List DataCallbackResult
all_data_callback_result = DataCallbackResult.continue ∷ DataCallbackResult.stop ∷ []

data_callback_result_of_code :
    (x : DataCallbackResult)
    → first_with
        (λ y. eqb_ℤ (data_callback_result_code y) (data_callback_result_code x))
        all_data_callback_result
      ≡ some x
unfolding data_callback_result_code first_with
data_callback_result_of_code DataCallbackResult.continue = refl
data_callback_result_of_code DataCallbackResult.stop = refl

abbrev pub all_result : List Result
all_result =
    Result.ok ∷ Result.error_base ∷ Result.error_disconnected ∷ Result.error_illegal_argument
    ∷ Result.error_internal ∷ Result.error_invalid_state ∷ Result.error_invalid_handle
    ∷ Result.error_unimplemented ∷ Result.error_unavailable ∷ Result.error_no_free_handles
    ∷ Result.error_no_memory ∷ Result.error_null ∷ Result.error_timeout ∷ Result.error_would_block
    ∷ Result.error_invalid_format ∷ Result.error_out_of_range ∷ Result.error_no_service
    ∷ Result.error_invalid_rate ∷ Result.reserved1 ∷ Result.reserved2 ∷ Result.reserved3
    ∷ Result.reserved4 ∷ Result.reserved5 ∷ Result.reserved6 ∷ Result.reserved7 ∷ Result.reserved8
    ∷ Result.reserved9 ∷ Result.reserved10 ∷ Result.error_closed ∷ []

result_of_code :
    (x : Result) → first_with (λ y. eqb_ℤ (result_code y) (result_code x)) all_result ≡ some x
unfolding result_code first_with
result_of_code Result.ok = refl
result_of_code Result.error_base = refl
result_of_code Result.error_disconnected = refl
result_of_code Result.error_illegal_argument = refl
result_of_code Result.error_internal = refl
result_of_code Result.error_invalid_state = refl
result_of_code Result.error_invalid_handle = refl
result_of_code Result.error_unimplemented = refl
result_of_code Result.error_unavailable = refl
result_of_code Result.error_no_free_handles = refl
result_of_code Result.error_no_memory = refl
result_of_code Result.error_null = refl
result_of_code Result.error_timeout = refl
result_of_code Result.error_would_block = refl
result_of_code Result.error_invalid_format = refl
result_of_code Result.error_out_of_range = refl
result_of_code Result.error_no_service = refl
result_of_code Result.error_invalid_rate = refl
result_of_code Result.reserved1 = refl
result_of_code Result.reserved2 = refl
result_of_code Result.reserved3 = refl
result_of_code Result.reserved4 = refl
result_of_code Result.reserved5 = refl
result_of_code Result.reserved6 = refl
result_of_code Result.reserved7 = refl
result_of_code Result.reserved8 = refl
result_of_code Result.reserved9 = refl
result_of_code Result.reserved10 = refl
result_of_code Result.error_closed = refl

abbrev pub all_sharing_mode : List SharingMode
all_sharing_mode = SharingMode.exclusive ∷ SharingMode.shared ∷ []

sharing_mode_of_code :
    (x : SharingMode)
    → first_with (λ y. eqb_ℤ (sharing_mode_code y) (sharing_mode_code x)) all_sharing_mode ≡ some x
unfolding sharing_mode_code first_with
sharing_mode_of_code SharingMode.exclusive = refl
sharing_mode_of_code SharingMode.shared = refl

abbrev pub all_performance_mode : List PerformanceMode
all_performance_mode =
    PerformanceMode.none ∷ PerformanceMode.power_saving ∷ PerformanceMode.low_latency ∷ []

performance_mode_of_code :
    (x : PerformanceMode)
    → first_with
        (λ y. eqb_ℤ (performance_mode_code y) (performance_mode_code x))
        all_performance_mode
      ≡ some x
unfolding performance_mode_code first_with
performance_mode_of_code PerformanceMode.none = refl
performance_mode_of_code PerformanceMode.power_saving = refl
performance_mode_of_code PerformanceMode.low_latency = refl

abbrev pub all_audio_api : List AudioApi
all_audio_api = AudioApi.unspecified ∷ AudioApi.open_sles ∷ AudioApi.aaudio ∷ []

audio_api_of_code :
    (x : AudioApi)
    → first_with (λ y. eqb_ℤ (audio_api_code y) (audio_api_code x)) all_audio_api ≡ some x
unfolding audio_api_code first_with
audio_api_of_code AudioApi.unspecified = refl
audio_api_of_code AudioApi.open_sles = refl
audio_api_of_code AudioApi.aaudio = refl

abbrev pub all_sample_rate_conversion_quality : List SampleRateConversionQuality
all_sample_rate_conversion_quality =
    SampleRateConversionQuality.none ∷ SampleRateConversionQuality.fastest
    ∷ SampleRateConversionQuality.low ∷ SampleRateConversionQuality.medium
    ∷ SampleRateConversionQuality.high ∷ SampleRateConversionQuality.best ∷ []

sample_rate_conversion_quality_of_code :
    (x : SampleRateConversionQuality)
    → first_with
        (λ y. eqb_ℤ (sample_rate_conversion_quality_code y) (sample_rate_conversion_quality_code x))
        all_sample_rate_conversion_quality
      ≡ some x
unfolding sample_rate_conversion_quality_code first_with
sample_rate_conversion_quality_of_code SampleRateConversionQuality.none = refl
sample_rate_conversion_quality_of_code SampleRateConversionQuality.fastest = refl
sample_rate_conversion_quality_of_code SampleRateConversionQuality.low = refl
sample_rate_conversion_quality_of_code SampleRateConversionQuality.medium = refl
sample_rate_conversion_quality_of_code SampleRateConversionQuality.high = refl
sample_rate_conversion_quality_of_code SampleRateConversionQuality.best = refl

abbrev pub all_usage : List Usage
all_usage =
    Usage.media ∷ Usage.voice_communication ∷ Usage.voice_communication_signalling ∷ Usage.alarm
    ∷ Usage.notification ∷ Usage.notification_ringtone ∷ Usage.notification_event
    ∷ Usage.assistance_accessibility ∷ Usage.assistance_navigation_guidance
    ∷ Usage.assistance_sonification ∷ Usage.game ∷ Usage.assistant ∷ []

usage_of_code :
    (x : Usage) → first_with (λ y. eqb_ℤ (usage_code y) (usage_code x)) all_usage ≡ some x
unfolding usage_code first_with
usage_of_code Usage.media = refl
usage_of_code Usage.voice_communication = refl
usage_of_code Usage.voice_communication_signalling = refl
usage_of_code Usage.alarm = refl
usage_of_code Usage.notification = refl
usage_of_code Usage.notification_ringtone = refl
usage_of_code Usage.notification_event = refl
usage_of_code Usage.assistance_accessibility = refl
usage_of_code Usage.assistance_navigation_guidance = refl
usage_of_code Usage.assistance_sonification = refl
usage_of_code Usage.game = refl
usage_of_code Usage.assistant = refl

abbrev pub all_content_type : List ContentType
all_content_type =
    ContentType.speech ∷ ContentType.music ∷ ContentType.movie ∷ ContentType.sonification ∷ []

content_type_of_code :
    (x : ContentType)
    → first_with (λ y. eqb_ℤ (content_type_code y) (content_type_code x)) all_content_type ≡ some x
unfolding content_type_code first_with
content_type_of_code ContentType.speech = refl
content_type_of_code ContentType.music = refl
content_type_of_code ContentType.movie = refl
content_type_of_code ContentType.sonification = refl

abbrev pub all_input_preset : List InputPreset
all_input_preset =
    InputPreset.generic ∷ InputPreset.camcorder ∷ InputPreset.voice_recognition
    ∷ InputPreset.voice_communication ∷ InputPreset.unprocessed ∷ InputPreset.voice_performance ∷ []

input_preset_of_code :
    (x : InputPreset)
    → first_with (λ y. eqb_ℤ (input_preset_code y) (input_preset_code x)) all_input_preset ≡ some x
unfolding input_preset_code first_with
input_preset_of_code InputPreset.generic = refl
input_preset_of_code InputPreset.camcorder = refl
input_preset_of_code InputPreset.voice_recognition = refl
input_preset_of_code InputPreset.voice_communication = refl
input_preset_of_code InputPreset.unprocessed = refl
input_preset_of_code InputPreset.voice_performance = refl

abbrev pub all_session_id : List SessionId
all_session_id = SessionId.none ∷ SessionId.allocate ∷ []

session_id_of_code :
    (x : SessionId)
    → first_with (λ y. eqb_ℤ (session_id_code y) (session_id_code x)) all_session_id ≡ some x
unfolding session_id_code first_with
session_id_of_code SessionId.none = refl
session_id_of_code SessionId.allocate = refl

abbrev pub all_channel_count : List ChannelCount
all_channel_count = ChannelCount.unspecified ∷ ChannelCount.mono ∷ ChannelCount.stereo ∷ []

channel_count_of_code :
    (x : ChannelCount)
    → first_with (λ y. eqb_ℤ (channel_count_code y) (channel_count_code x)) all_channel_count
      ≡ some x
unfolding channel_count_code first_with
channel_count_of_code ChannelCount.unspecified = refl
channel_count_of_code ChannelCount.mono = refl
channel_count_of_code ChannelCount.stereo = refl

-- The values of the enumerations tell their constructors apart: two results, states, formats, usages,
-- presets, content types or audio interfaces with the same value are the same.
pub codes_distinct :
    ((x y : Result) → result_code x ≡ result_code y → x ≡ y)
    × ((x y : StreamState) → stream_state_code x ≡ stream_state_code y → x ≡ y)
    × ((x y : AudioFormat) → audio_format_code x ≡ audio_format_code y → x ≡ y)
    × ((x y : Usage) → usage_code x ≡ usage_code y → x ≡ y)
    × ((x y : InputPreset) → input_preset_code x ≡ input_preset_code y → x ≡ y)
    × ((x y : ContentType) → content_type_code x ≡ content_type_code y → x ≡ y)
    × ((x y : AudioApi) → audio_api_code x ≡ audio_api_code y → x ≡ y)
codes_distinct = (
  λ x y h. cc_of_some (
      sym (result_of_code x)
      ∙ (ap (λ c. first_with (λ z. eqb_ℤ (result_code z) c) all_result) h ∙ result_of_code y)),
  λ x y h. cc_of_some (
      sym (stream_state_of_code x)
      ∙ (ap (λ c. first_with (λ z. eqb_ℤ (stream_state_code z) c) all_stream_state) h
          ∙ stream_state_of_code y)),
  λ x y h. cc_of_some (
      sym (audio_format_of_code x)
      ∙ (ap (λ c. first_with (λ z. eqb_ℤ (audio_format_code z) c) all_audio_format) h
          ∙ audio_format_of_code y)),
  λ x y h. cc_of_some (
      sym (usage_of_code x)
      ∙ (ap (λ c. first_with (λ z. eqb_ℤ (usage_code z) c) all_usage) h ∙ usage_of_code y)),
  λ x y h. cc_of_some (
      sym (input_preset_of_code x)
      ∙ (ap (λ c. first_with (λ z. eqb_ℤ (input_preset_code z) c) all_input_preset) h
          ∙ input_preset_of_code y)),
  λ x y h. cc_of_some (
      sym (content_type_of_code x)
      ∙ (ap (λ c. first_with (λ z. eqb_ℤ (content_type_code z) c) all_content_type) h
          ∙ content_type_of_code y)),
  λ x y h. cc_of_some (
      sym (audio_api_of_code x)
      ∙ (ap (λ c. first_with (λ z. eqb_ℤ (audio_api_code z) c) all_audio_api) h
          ∙ audio_api_of_code y)),
)
