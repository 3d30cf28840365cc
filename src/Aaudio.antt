-- ===== src/Aaudio.antt =====
-- A stream over AAudio: src/aaudio/AudioStreamAAudio.h and src/aaudio/AudioStreamAAudio.cpp. A call holds
-- the stream's mutexes from its start to its end, but for the wait for a state, which gives them back
-- while it sleeps.
mod Open
mod Requests
mod Wait
mod Session
mod Threads
mod Balance
mod Tests
use android_audio_samples.Prelude.{
  ℕ, Bool, true, false, ◌&&◌, Option, none, some, ℤ, pos, leb, ltb_ℤ, ◌⊎◌, inl, inr, if◌then◌else◌,
  List,
}
use android_audio_samples.Definitions.{
  Result, StreamState, AudioFormat, SharingMode, PerformanceMode, Direction, Usage, ContentType,
  InputPreset, SessionId, DataCallbackResult,
}
use android_audio_samples.StreamBase.{AudioStreamBase, Platform}

-- What the builder of AAudio is told, but for the package name and the attribution tag. A setting that it
-- is not told is `none`.
pub record Request : Type 0 where
  pub capacity : ℤ
  pub channel_count : ℤ
  pub device_id : ℤ
  pub direction : Direction
  pub format : AudioFormat
  pub sample_rate : ℤ
  pub sharing_mode : SharingMode
  pub performance_mode : PerformanceMode
  pub usage : Option Usage
  pub content_type : Option ContentType
  pub input_preset : Option InputPreset
  pub session_id : Option SessionId
  pub frames_per_data_callback : Option ℤ
  pub error_callback : Bool

-- What an open stream of AAudio answers.
pub record Properties : Type 0 where
  pub device_id : ℤ
  pub channel_count : ℤ
  pub sample_rate : ℤ
  pub format : AudioFormat
  pub sharing_mode : SharingMode
  pub performance_mode : PerformanceMode
  pub buffer_capacity : ℤ
  pub buffer_size : ℤ
  pub frames_per_burst : ℤ
  pub usage : Usage
  pub content_type : ContentType
  pub input_preset : InputPreset
  pub session_id : SessionId

-- The functions of AAudio, the application's callbacks and the clock, with `W` their state. A stream of
-- AAudio is named by a number. A flag `has_` says that the loader found the setter and the getter.
pub record Library : Type 1 where
  pub W : Type 0
  pub has_usage : Bool
  pub has_content_type : Bool
  pub has_input_preset : Bool
  pub has_session_id : Bool
  pub create_builder : W → Result × W
  pub open_stream : Request → W → Result × Option ℕ × W
  pub delete_builder : W → W
  pub properties : ℕ → W → Properties
  pub close_stream : ℕ → W → Result × W
  pub start_stream : ℕ → W → Result × W
  pub pause_stream : ℕ → W → Result × W
  pub flush_stream : ℕ → W → Result × W
  pub stop_stream : ℕ → W → Result × W
  pub state_of : ℕ → W → StreamState
  pub next_state : ℕ → StreamState → W → Result × StreamState × W
  pub write_stream : ℕ → List ℕ → ℤ → ℤ → W → ℤ × W
  pub read_stream : ℕ → List ℕ → ℤ → ℤ → W → ℤ × List ℕ × W
  pub set_size : ℕ → ℤ → W → ℤ × W
  pub size_of : ℕ → W → ℤ
  pub frames_read_of : ℕ → W → ℤ
  pub frames_written_of : ℕ → W → ℤ
  pub x_run_count_of : ℕ → W → ℤ
  pub timestamp_of : ℕ → W → Result × ℤ × ℤ
  pub mmap_used_of : ℕ → W → Bool
  pub on_audio_ready : List ℕ → ℤ → W → DataCallbackResult × List ℕ × W
  pub on_error : Result → W → Bool × W
  pub on_error_before_close : Result → W → W
  pub on_error_after_close : Result → W → W
  pub nanoseconds : W → ℤ

-- The fields of the class and of its base classes; `aaudio_stream` is `mAAudioStream`, `none` if null.
pub record Stream : Type 0 where
  pub base : AudioStreamBase
  pub aaudio_stream : Option ℕ
  pub frames_per_burst : ℤ
  pub frames_read : ℤ
  pub frames_written : ℤ
  pub data_callback_enabled : Bool
  pub stop_thread_allowed : Bool
  pub error_callback_called : Bool
  pub error_callback_result : Result

-- `ResultWithValue<int32_t>`: the code of an error, or a value.
abbrev pub Answer : Type 0
Answer = ℤ ⊎ ℤ

pub create_based_on_sign : ℤ → Answer
create_based_on_sign number = if ltb_ℤ number (pos 0) then inl number else inr number

-- `getSdkVersion() <= __ANDROID_API_O_MR1__`
abbrev pub is_early : Platform → Bool
is_early p = leb p.sdk_version 27

abbrev pub is_starting : StreamState → Bool
is_starting StreamState.starting = true
is_starting _ = false

-- `OBOE_FIX_FORCE_STARTING_TO_STARTED`
pub forced : Platform → StreamState → StreamState
forced p state = if p.workarounds_enabled && is_starting state then StreamState.started else state
