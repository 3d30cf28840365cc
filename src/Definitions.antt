-- ===== src/Definitions.antt =====
-- The enumerations of include/oboe/Definitions.h, with the constructors and the values of the source.
-- Two types may share a constructor name, as `none` of `PerformanceMode` and of `SessionId`: it is
-- written behind its type there.
pub mod Codes
mod Text
use android_audio_samples.Prelude.{ℕ, ℤ, pos, negsuc, eqb_ℤ, List, [], ◌∷◌, Bool, true, false}

pub data StreamState : Type 0 where
  uninitialized unknown opened starting started pausing paused flushing flushed stopping stopped
        closing closed disconnected :
      StreamState

pub data Direction : Type 0 where
  output input : Direction

pub data AudioFormat : Type 0 where
  invalid unspecified i16 float i24 i32 : AudioFormat

pub data DataCallbackResult : Type 0 where
  continue stop : DataCallbackResult

pub data Result : Type 0 where
  ok error_base error_disconnected error_illegal_argument error_internal error_invalid_state
        error_invalid_handle error_unimplemented error_unavailable error_no_free_handles
        error_no_memory error_null error_timeout error_would_block error_invalid_format
        error_out_of_range error_no_service error_invalid_rate reserved1 reserved2 reserved3
        reserved4 reserved5 reserved6 reserved7 reserved8 reserved9 reserved10 error_closed :
      Result

pub data SharingMode : Type 0 where
  exclusive shared : SharingMode

pub data PerformanceMode : Type 0 where
  none power_saving low_latency : PerformanceMode

pub data AudioApi : Type 0 where
  unspecified open_sles aaudio : AudioApi

pub data SampleRateConversionQuality : Type 0 where
  none fastest low medium high best : SampleRateConversionQuality

pub data Usage : Type 0 where
  media voice_communication voice_communication_signalling alarm notification notification_ringtone
        notification_event assistance_accessibility assistance_navigation_guidance
        assistance_sonification game assistant :
      Usage

pub data ContentType : Type 0 where
  speech music movie sonification : ContentType

pub data InputPreset : Type 0 where
  generic camcorder voice_recognition voice_communication unprocessed voice_performance :
      InputPreset

pub data SessionId : Type 0 where
  none allocate : SessionId

pub data ChannelCount : Type 0 where
  unspecified mono stereo : ChannelCount

-- (int32_t) of a `StreamState`
unfoldable pub stream_state_code : StreamState → ℤ
stream_state_code StreamState.uninitialized = pos 0
stream_state_code StreamState.unknown = pos 1
stream_state_code StreamState.opened = pos 2
stream_state_code StreamState.starting = pos 3
stream_state_code StreamState.started = pos 4
stream_state_code StreamState.pausing = pos 5
stream_state_code StreamState.paused = pos 6
stream_state_code StreamState.flushing = pos 7
stream_state_code StreamState.flushed = pos 8
stream_state_code StreamState.stopping = pos 9
stream_state_code StreamState.stopped = pos 10
stream_state_code StreamState.closing = pos 11
stream_state_code StreamState.closed = pos 12
stream_state_code StreamState.disconnected = pos 13

-- (int32_t) of a `Direction`
unfoldable pub direction_code : Direction → ℤ
direction_code Direction.output = pos 0
direction_code Direction.input = pos 1

-- (int32_t) of a `AudioFormat`
unfoldable pub audio_format_code : AudioFormat → ℤ
audio_format_code AudioFormat.invalid = negsuc 0
audio_format_code AudioFormat.unspecified = pos 0
audio_format_code AudioFormat.i16 = pos 1
audio_format_code AudioFormat.float = pos 2
audio_format_code AudioFormat.i24 = pos 3
audio_format_code AudioFormat.i32 = pos 4

-- (int32_t) of a `DataCallbackResult`
unfoldable pub data_callback_result_code : DataCallbackResult → ℤ
data_callback_result_code DataCallbackResult.continue = pos 0
data_callback_result_code DataCallbackResult.stop = pos 1

-- (int32_t) of a `Result`
unfoldable pub result_code : Result → ℤ
result_code Result.ok = pos 0
result_code Result.error_base = negsuc 899
result_code Result.error_disconnected = negsuc 898
result_code Result.error_illegal_argument = negsuc 897
result_code Result.error_internal = negsuc 895
result_code Result.error_invalid_state = negsuc 894
result_code Result.error_invalid_handle = negsuc 891
result_code Result.error_unimplemented = negsuc 889
result_code Result.error_unavailable = negsuc 888
result_code Result.error_no_free_handles = negsuc 887
result_code Result.error_no_memory = negsuc 886
result_code Result.error_null = negsuc 885
result_code Result.error_timeout = negsuc 884
result_code Result.error_would_block = negsuc 883
result_code Result.error_invalid_format = negsuc 882
result_code Result.error_out_of_range = negsuc 881
result_code Result.error_no_service = negsuc 880
result_code Result.error_invalid_rate = negsuc 879
result_code Result.reserved1 = negsuc 878
result_code Result.reserved2 = negsuc 877
result_code Result.reserved3 = negsuc 876
result_code Result.reserved4 = negsuc 875
result_code Result.reserved5 = negsuc 874
result_code Result.reserved6 = negsuc 873
result_code Result.reserved7 = negsuc 872
result_code Result.reserved8 = negsuc 871
result_code Result.reserved9 = negsuc 870
result_code Result.reserved10 = negsuc 869
result_code Result.error_closed = negsuc 868

-- (int32_t) of a `SharingMode`
unfoldable pub sharing_mode_code : SharingMode → ℤ
sharing_mode_code SharingMode.exclusive = pos 0
sharing_mode_code SharingMode.shared = pos 1

-- (int32_t) of a `PerformanceMode`
unfoldable pub performance_mode_code : PerformanceMode → ℤ
performance_mode_code PerformanceMode.none = pos 10
performance_mode_code PerformanceMode.power_saving = pos 11
performance_mode_code PerformanceMode.low_latency = pos 12

-- (int32_t) of a `AudioApi`
unfoldable pub audio_api_code : AudioApi → ℤ
audio_api_code AudioApi.unspecified = pos 0
audio_api_code AudioApi.open_sles = pos 1
audio_api_code AudioApi.aaudio = pos 2

-- (int32_t) of a `SampleRateConversionQuality`
unfoldable pub sample_rate_conversion_quality_code : SampleRateConversionQuality → ℤ
sample_rate_conversion_quality_code SampleRateConversionQuality.none = pos 0
sample_rate_conversion_quality_code SampleRateConversionQuality.fastest = pos 1
sample_rate_conversion_quality_code SampleRateConversionQuality.low = pos 2
sample_rate_conversion_quality_code SampleRateConversionQuality.medium = pos 3
sample_rate_conversion_quality_code SampleRateConversionQuality.high = pos 4
sample_rate_conversion_quality_code SampleRateConversionQuality.best = pos 5

-- (int32_t) of a `Usage`
unfoldable pub usage_code : Usage → ℤ
usage_code Usage.media = pos 1
usage_code Usage.voice_communication = pos 2
usage_code Usage.voice_communication_signalling = pos 3
usage_code Usage.alarm = pos 4
usage_code Usage.notification = pos 5
usage_code Usage.notification_ringtone = pos 6
usage_code Usage.notification_event = pos 10
usage_code Usage.assistance_accessibility = pos 11
usage_code Usage.assistance_navigation_guidance = pos 12
usage_code Usage.assistance_sonification = pos 13
usage_code Usage.game = pos 14
usage_code Usage.assistant = pos 16

-- (int32_t) of a `ContentType`
unfoldable pub content_type_code : ContentType → ℤ
content_type_code ContentType.speech = pos 1
content_type_code ContentType.music = pos 2
content_type_code ContentType.movie = pos 3
content_type_code ContentType.sonification = pos 4

-- (int32_t) of a `InputPreset`
unfoldable pub input_preset_code : InputPreset → ℤ
input_preset_code InputPreset.generic = pos 1
input_preset_code InputPreset.camcorder = pos 5
input_preset_code InputPreset.voice_recognition = pos 6
input_preset_code InputPreset.voice_communication = pos 7
input_preset_code InputPreset.unprocessed = pos 9
input_preset_code InputPreset.voice_performance = pos 10

-- (int32_t) of a `SessionId`
unfoldable pub session_id_code : SessionId → ℤ
session_id_code SessionId.none = negsuc 0
session_id_code SessionId.allocate = pos 0

-- (int32_t) of a `ChannelCount`
unfoldable pub channel_count_code : ChannelCount → ℤ
channel_count_code ChannelCount.unspecified = pos 0
channel_count_code ChannelCount.mono = pos 1
channel_count_code ChannelCount.stereo = pos 2

abbrev pub is_ok : Result → Bool
is_ok Result.ok = true
is_ok _ = false

-- Equality of two states, by their values.
unfoldable pub same_state : StreamState → StreamState → Bool
same_state a b = eqb_ℤ (stream_state_code a) (stream_state_code b)
