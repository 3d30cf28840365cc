-- ===== src/Definitions/Text.antt =====
-- `convertToText` of src/common/Utilities.cpp: a text for each value, and a default for those that
-- the `switch` does not list.
use Prim.Native.String.{String}
use text.Mathlib.Text.{◌==◌ as str_eq}
use android_audio_samples.Prelude.{◌≡◌, refl, ◌∙◌, ap, sym, some, first_with, cc_of_some}
use android_audio_samples.Definitions.Codes.{
  all_stream_state, all_audio_format, all_performance_mode, all_sharing_mode, all_audio_api,
  all_usage, all_content_type, all_input_preset,
}
use android_audio_samples.Definitions.{
  StreamState, Direction, AudioFormat, DataCallbackResult, Result, SharingMode, PerformanceMode,
  AudioApi, Usage, ContentType, InputPreset, SessionId, ChannelCount,
}

unfoldable pub result_text : Result → String
result_text Result.ok = "OK"
result_text Result.error_disconnected = "ErrorDisconnected"
result_text Result.error_illegal_argument = "ErrorIllegalArgument"
result_text Result.error_internal = "ErrorInternal"
result_text Result.error_invalid_state = "ErrorInvalidState"
result_text Result.error_invalid_handle = "ErrorInvalidHandle"
result_text Result.error_unimplemented = "ErrorUnimplemented"
result_text Result.error_unavailable = "ErrorUnavailable"
result_text Result.error_no_free_handles = "ErrorNoFreeHandles"
result_text Result.error_no_memory = "ErrorNoMemory"
result_text Result.error_null = "ErrorNull"
result_text Result.error_timeout = "ErrorTimeout"
result_text Result.error_would_block = "ErrorWouldBlock"
result_text Result.error_invalid_format = "ErrorInvalidFormat"
result_text Result.error_out_of_range = "ErrorOutOfRange"
result_text Result.error_no_service = "ErrorNoService"
result_text Result.error_invalid_rate = "ErrorInvalidRate"
result_text Result.error_closed = "ErrorClosed"
result_text _ = "Unrecognized result"

unfoldable pub audio_format_text : AudioFormat → String
audio_format_text AudioFormat.invalid = "Invalid"
audio_format_text AudioFormat.unspecified = "Unspecified"
audio_format_text AudioFormat.i16 = "I16"
audio_format_text AudioFormat.float = "Float"
audio_format_text AudioFormat.i24 = "I24"
audio_format_text AudioFormat.i32 = "I32"

unfoldable pub performance_mode_text : PerformanceMode → String
performance_mode_text PerformanceMode.none = "None"
performance_mode_text PerformanceMode.power_saving = "PowerSaving"
performance_mode_text PerformanceMode.low_latency = "LowLatency"

unfoldable pub sharing_mode_text : SharingMode → String
sharing_mode_text SharingMode.exclusive = "Exclusive"
sharing_mode_text SharingMode.shared = "Shared"

unfoldable pub data_callback_result_text : DataCallbackResult → String
data_callback_result_text DataCallbackResult.continue = "Continue"
data_callback_result_text DataCallbackResult.stop = "Stop"

unfoldable pub direction_text : Direction → String
direction_text Direction.output = "Output"
direction_text Direction.input = "Input"

unfoldable pub stream_state_text : StreamState → String
stream_state_text StreamState.uninitialized = "Uninitialized"
stream_state_text StreamState.unknown = "Unknown"
stream_state_text StreamState.opened = "Open"
stream_state_text StreamState.starting = "Starting"
stream_state_text StreamState.started = "Started"
stream_state_text StreamState.pausing = "Pausing"
stream_state_text StreamState.paused = "Paused"
stream_state_text StreamState.flushing = "Flushing"
stream_state_text StreamState.flushed = "Flushed"
stream_state_text StreamState.stopping = "Stopping"
stream_state_text StreamState.stopped = "Stopped"
stream_state_text StreamState.closing = "Closing"
stream_state_text StreamState.closed = "Closed"
stream_state_text StreamState.disconnected = "Disconnected"

unfoldable pub audio_api_text : AudioApi → String
audio_api_text AudioApi.unspecified = "Unspecified"
audio_api_text AudioApi.open_sles = "OpenSLES"
audio_api_text AudioApi.aaudio = "AAudio"

unfoldable pub usage_text : Usage → String
usage_text Usage.media = "Media"
usage_text Usage.voice_communication = "VoiceCommunication"
usage_text Usage.voice_communication_signalling = "VoiceCommunicationSignalling"
usage_text Usage.alarm = "Alarm"
usage_text Usage.notification = "Notification"
usage_text Usage.notification_ringtone = "NotificationRingtone"
usage_text Usage.notification_event = "NotificationEvent"
usage_text Usage.assistance_accessibility = "AssistanceAccessibility"
usage_text Usage.assistance_navigation_guidance = "AssistanceNavigationGuidance"
usage_text Usage.assistance_sonification = "AssistanceSonification"
usage_text Usage.game = "Game"
usage_text Usage.assistant = "Assistant"

unfoldable pub content_type_text : ContentType → String
content_type_text ContentType.speech = "Speech"
content_type_text ContentType.music = "Music"
content_type_text ContentType.movie = "Movie"
content_type_text ContentType.sonification = "Sonification"

unfoldable pub input_preset_text : InputPreset → String
input_preset_text InputPreset.generic = "Generic"
input_preset_text InputPreset.camcorder = "Camcorder"
input_preset_text InputPreset.voice_recognition = "VoiceRecognition"
input_preset_text InputPreset.voice_communication = "VoiceCommunication"
input_preset_text InputPreset.unprocessed = "Unprocessed"
input_preset_text InputPreset.voice_performance = "VoicePerformance"

unfoldable pub session_id_text : SessionId → String
session_id_text SessionId.none = "None"
session_id_text SessionId.allocate = "Allocate"

unfoldable pub channel_count_text : ChannelCount → String
channel_count_text ChannelCount.unspecified = "Unspecified"
channel_count_text ChannelCount.mono = "Mono"
channel_count_text ChannelCount.stereo = "Stereo"

stream_state_of_text :
    (x : StreamState)
    → first_with (λ y. str_eq (stream_state_text y) (stream_state_text x)) all_stream_state ≡ some x
unfolding stream_state_text first_with
stream_state_of_text StreamState.uninitialized = refl
stream_state_of_text StreamState.unknown = refl
stream_state_of_text StreamState.opened = refl
stream_state_of_text StreamState.starting = refl
stream_state_of_text StreamState.started = refl
stream_state_of_text StreamState.pausing = refl
stream_state_of_text StreamState.paused = refl
stream_state_of_text StreamState.flushing = refl
stream_state_of_text StreamState.flushed = refl
stream_state_of_text StreamState.stopping = refl
stream_state_of_text StreamState.stopped = refl
stream_state_of_text StreamState.closing = refl
stream_state_of_text StreamState.closed = refl
stream_state_of_text StreamState.disconnected = refl

audio_format_of_text :
    (x : AudioFormat)
    → first_with (λ y. str_eq (audio_format_text y) (audio_format_text x)) all_audio_format ≡ some x
unfolding audio_format_text first_with
audio_format_of_text AudioFormat.invalid = refl
audio_format_of_text AudioFormat.unspecified = refl
audio_format_of_text AudioFormat.i16 = refl
audio_format_of_text AudioFormat.float = refl
audio_format_of_text AudioFormat.i24 = refl
audio_format_of_text AudioFormat.i32 = refl

performance_mode_of_text :
    (x : PerformanceMode)
    → first_with
        (λ y. str_eq (performance_mode_text y) (performance_mode_text x))
        all_performance_mode
      ≡ some x
unfolding performance_mode_text first_with
performance_mode_of_text PerformanceMode.none = refl
performance_mode_of_text PerformanceMode.power_saving = refl
performance_mode_of_text PerformanceMode.low_latency = refl

sharing_mode_of_text :
    (x : SharingMode)
    → first_with (λ y. str_eq (sharing_mode_text y) (sharing_mode_text x)) all_sharing_mode ≡ some x
unfolding sharing_mode_text first_with
sharing_mode_of_text SharingMode.exclusive = refl
sharing_mode_of_text SharingMode.shared = refl

audio_api_of_text :
    (x : AudioApi)
    → first_with (λ y. str_eq (audio_api_text y) (audio_api_text x)) all_audio_api ≡ some x
unfolding audio_api_text first_with
audio_api_of_text AudioApi.unspecified = refl
audio_api_of_text AudioApi.open_sles = refl
audio_api_of_text AudioApi.aaudio = refl

usage_of_text :
    (x : Usage) → first_with (λ y. str_eq (usage_text y) (usage_text x)) all_usage ≡ some x
unfolding usage_text first_with
usage_of_text Usage.media = refl
usage_of_text Usage.voice_communication = refl
usage_of_text Usage.voice_communication_signalling = refl
usage_of_text Usage.alarm = refl
usage_of_text Usage.notification = refl
usage_of_text Usage.notification_ringtone = refl
usage_of_text Usage.notification_event = refl
usage_of_text Usage.assistance_accessibility = refl
usage_of_text Usage.assistance_navigation_guidance = refl
usage_of_text Usage.assistance_sonification = refl
usage_of_text Usage.game = refl
usage_of_text Usage.assistant = refl

content_type_of_text :
    (x : ContentType)
    → first_with (λ y. str_eq (content_type_text y) (content_type_text x)) all_content_type ≡ some x
unfolding content_type_text first_with
content_type_of_text ContentType.speech = refl
content_type_of_text ContentType.music = refl
content_type_of_text ContentType.movie = refl
content_type_of_text ContentType.sonification = refl

input_preset_of_text :
    (x : InputPreset)
    → first_with (λ y. str_eq (input_preset_text y) (input_preset_text x)) all_input_preset ≡ some x
unfolding input_preset_text first_with
input_preset_of_text InputPreset.generic = refl
input_preset_of_text InputPreset.camcorder = refl
input_preset_of_text InputPreset.voice_recognition = refl
input_preset_of_text InputPreset.voice_communication = refl
input_preset_of_text InputPreset.unprocessed = refl
input_preset_of_text InputPreset.voice_performance = refl

-- `convertToText` gives no two values of one of these enumerations the same text: stream states,
-- formats, performance and sharing modes, audio interfaces, usages, content types, input presets.
pub texts_distinct :
    ((x y : StreamState) → stream_state_text x ≡ stream_state_text y → x ≡ y)
    × ((x y : AudioFormat) → audio_format_text x ≡ audio_format_text y → x ≡ y)
    × ((x y : PerformanceMode) → performance_mode_text x ≡ performance_mode_text y → x ≡ y)
    × ((x y : SharingMode) → sharing_mode_text x ≡ sharing_mode_text y → x ≡ y)
    × ((x y : AudioApi) → audio_api_text x ≡ audio_api_text y → x ≡ y)
    × ((x y : Usage) → usage_text x ≡ usage_text y → x ≡ y)
    × ((x y : ContentType) → content_type_text x ≡ content_type_text y → x ≡ y)
    × ((x y : InputPreset) → input_preset_text x ≡ input_preset_text y → x ≡ y)
texts_distinct = (
  λ x y h. cc_of_some (
      sym (stream_state_of_text x)
      ∙ (ap (λ t. first_with (λ z. str_eq (stream_state_text z) t) all_stream_state) h
          ∙ stream_state_of_text y)),
  λ x y h. cc_of_some (
      sym (audio_format_of_text x)
      ∙ (ap (λ t. first_with (λ z. str_eq (audio_format_text z) t) all_audio_format) h
          ∙ audio_format_of_text y)),
  λ x y h. cc_of_some (
      sym (performance_mode_of_text x)
      ∙ (ap (λ t. first_with (λ z. str_eq (performance_mode_text z) t) all_performance_mode) h
          ∙ performance_mode_of_text y)),
  λ x y h. cc_of_some (
      sym (sharing_mode_of_text x)
      ∙ (ap (λ t. first_with (λ z. str_eq (sharing_mode_text z) t) all_sharing_mode) h
          ∙ sharing_mode_of_text y)),
  λ x y h. cc_of_some (
      sym (audio_api_of_text x)
      ∙ (ap (λ t. first_with (λ z. str_eq (audio_api_text z) t) all_audio_api) h
          ∙ audio_api_of_text y)),
  λ x y h. cc_of_some (
      sym (usage_of_text x)
      ∙ (ap (λ t. first_with (λ z. str_eq (usage_text z) t) all_usage) h ∙ usage_of_text y)),
  λ x y h. cc_of_some (
      sym (content_type_of_text x)
      ∙ (ap (λ t. first_with (λ z. str_eq (content_type_text z) t) all_content_type) h
          ∙ content_type_of_text y)),
  λ x y h. cc_of_some (
      sym (input_preset_of_text x)
      ∙ (ap (λ t. first_with (λ z. str_eq (input_preset_text z) t) all_input_preset) h
          ∙ input_preset_of_text y)),
)
