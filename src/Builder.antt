-- ===== src/Builder.antt =====
-- The opening of a stream: src/common/AudioStreamBuilder.cpp, with the stream that converts for its
-- child: src/common/FilterAudioStream.h and src/common/FilterAudioStream.cpp.
mod Laws
mod Outcome
mod Tests
use android_audio_samples.Prelude.{
  ℕ, zero, suc, Bool, true, false, not, ◌&&◌, Option, some, none, ℤ, pos, negsuc, ltb_ℤ,
  if◌then◌else◌,
}
use android_audio_samples.Definitions.{Result, AudioFormat, is_ok}
use android_audio_samples.StreamBase.{
  AudioStreamBase, Platform, Backend, build, is_valid_config, is_compatible, is_input,
  is_low_latency, is_unspecified, is_data_callback_specified, same_format,
}
use android_audio_samples.MonotonicCounter.{times}
use android_audio_samples.Quirks.{DeviceQuirks, is_conversion_needed, is_mmap_safe}
use android_audio_samples.DataConversion.{StreamInfo, FlowGraph, configure}

-- The MMAP policy of AAudio: `AAUDIO_POLICY_NEVER` and so on, and any other number, which stands too for a
-- library without the functions.
pub data Policy : Type 0 where
  never auto always : Policy
  other : ℕ → Policy

pub is_policy_enabled : Policy → Bool
is_policy_enabled Policy.auto = true
is_policy_enabled Policy.always = true
is_policy_enabled _ = false

-- The streams of AAudio and OpenSL ES, with `W` the state of the platform. They are opened under an MMAP
-- policy. `set_mmap_policy asked policy` is the policy after a call of `AAudio_setMMapPolicy`, whose
-- answer is dropped. Whether a buffer size was taken is only logged.
pub record System : Type 1 where
  pub W : Type 0
  pub open_backend : Backend → AudioStreamBase → Policy → W → Result × StreamInfo × W
  pub set_mmap_policy : Policy → Policy → Policy
  pub set_buffer_size : StreamInfo → ℤ → W → W
  pub close_backend : StreamInfo → W → W

-- The policy that `AAudioExtensions` reads and sets, and the rest of the platform.
pub record Device (W : Type 0) : Type 0 where
  pub mmap_policy : Policy
  pub world : W

-- `AAudioExtensions::isMMapEnabled`
abbrev pub is_mmap_enabled : {W : Type 0} → Device W → Bool
is_mmap_enabled d = is_policy_enabled d.mmap_policy

-- `AAudioExtensions::setMMapEnabled`
abbrev pub set_mmap_enabled : (system : System) → Bool → Device system.W → Device system.W
set_mmap_enabled system enabled d = record d {
  mmap_policy =
      system.set_mmap_policy (if enabled then Policy.auto else Policy.never) d.mmap_policy;
}

-- A stream of a backend, or a `FilterAudioStream`, which owns its child.
pub data AudioStream : Type 0 where
  backend : StreamInfo → AudioStream
  filter : StreamInfo → AudioStream → FlowGraph → AudioStream

abbrev pub info_of : AudioStream → StreamInfo
info_of (backend info) = info
info_of (filter info child graph) = info

-- What `*streamPP` holds in the end: what it held before, null, or a stream.
pub data Slot : Type 0 where
  untouched null : Slot
  stream : AudioStream → Slot

abbrev held : Slot → Option AudioStream
held (stream s) = some s
held _ = none

abbrev is_error_callback_specified : AudioStreamBase → Bool
is_error_callback_specified b = elim b.error_callback [ some f ↦ true | none ↦ false ]

-- What the parent's builder takes from the child where the application asked for nothing.
pub fill_in : AudioStreamBase → AudioStreamBase → AudioStreamBase
fill_in b child = record b {
  format = if same_format b.format AudioFormat.unspecified then child.format else b.format;
  channel_count = if is_unspecified b.channel_count then child.channel_count else b.channel_count;
  sample_rate = if is_unspecified b.sample_rate then child.sample_rate else b.sample_rate;
  frames_per_callback =
      if is_unspecified b.frames_per_callback
      then child.frames_per_callback
      else b.frames_per_callback;
}

-- The parent's fields after the constructor of `FilterAudioStream`: a callback of the application is
-- taken over from the child.
pub filter_info : AudioStreamBase → StreamInfo → StreamInfo
filter_info parent child = record {
  settings = record parent {
    data_callback =
        if is_data_callback_specified parent
        then child.settings.data_callback
        else parent.data_callback;
    error_callback =
        if is_error_callback_specified parent
        then child.settings.error_callback
        else parent.error_callback;
    buffer_capacity_in_frames = child.settings.buffer_capacity_in_frames;
    performance_mode = child.settings.performance_mode;
    input_preset = child.settings.input_preset;
    device_id = child.settings.device_id;
  };
  frames_per_burst = child.frames_per_burst;
}

-- The child, which calls the parent where the application is to be called; 0 names the parent.
pub intercept_info : AudioStreamBase → StreamInfo → StreamInfo
intercept_info parent child = record child {
  settings = record child.settings {
    data_callback =
        if is_data_callback_specified parent then some 0 else child.settings.data_callback;
    error_callback =
        if is_error_callback_specified parent then some 0 else child.settings.error_callback;
  };
}

pub intercept : AudioStreamBase → AudioStream → AudioStream
intercept parent (backend info) = backend (intercept_info parent info)
intercept parent (filter info child graph) = filter (intercept_info parent info) child graph

-- `FilterAudioStream::configureFlowGraph`
pub configure_flow_graph : StreamInfo → StreamInfo → Result × FlowGraph
configure_flow_graph parent child =
    if is_input parent.settings then configure child parent else configure parent child

-- `optimalBufferSize`: -1 if there is none
pub optimal_buffer_size : StreamInfo → ℤ
optimal_buffer_size s =
    if is_input s.settings
    then s.settings.buffer_capacity_in_frames
    else if is_low_latency s.settings
    then times s.frames_per_burst 2
    else negsuc 0

module _ (system : System) where
  open system use {W, open_backend, set_buffer_size, close_backend}

  -- A parent hands both calls down to its child.
  pub resize : AudioStream → ℤ → W → W
  resize (backend info) size w = set_buffer_size info size w
  resize (filter info child graph) size w = resize child size w

  pub close_stream : AudioStream → W → W
  close_stream (backend info) w = close_backend info w
  close_stream (filter info child graph) w = close_stream child w

  -- `open` of a stream that `build` made, or of a `FilterAudioStream`, which does nothing
  pub open_built :
      Option AudioStream → Backend → AudioStreamBase → Device W → Result × AudioStream × W
  open_built (some s) kind b d = (Result.ok, s, d.world)
  open_built none kind b d =
      let (result, info, w) = open_backend kind b d.mmap_policy d.world in (result, backend info, w)

module _ (system : System) (p : Platform) (q : DeviceQuirks) where
  open system use {W}

  abbrev pub Reply : Type 0
  Reply = Result × Slot × Device W

  -- The end of `openStream`, from the temporary change of the MMAP policy on.
  pub finish : AudioStreamBase → AudioStreamBase → Option AudioStream → Device W → Reply
  finish b child built d =
      let disable = is_mmap_enabled d && not (is_mmap_safe p q child) in
      let during = if disable then set_mmap_enabled system false d else d in
      let (result, s, w) = open_built system built (build p b) b during in
      let after = if disable then set_mmap_enabled system (is_mmap_enabled d) during else during in
      let size = optimal_buffer_size (info_of s) in
      let sized = if ltb_ℤ size (pos 0) then w else resize system s size w in
      if is_ok result
      then (result, stream s, record after { world = sized })
      else (result, null, record after { world = w })

  -- The parent of a child that cannot stand in for it. If the flow graph cannot be made the child is
  -- closed with the parent, and a stream is opened the old way.
  pub convert : AudioStreamBase → AudioStreamBase → AudioStream → Device W → Reply
  convert b child s d =
      let requested = fill_in b (info_of s).settings in
      let parent = filter_info requested (info_of s) in
      let below = intercept requested s in
      let (result, graph) = configure_flow_graph parent (info_of below) in
      if is_ok result
      then finish b child (some (filter parent below graph)) d
      else finish b child none (record d { world = close_stream system below d.world })

  -- After the child was opened. An opening that succeeds leaves a stream.
  pub use_child : AudioStreamBase → AudioStreamBase → Reply → Reply
  use_child b child (result, stream s, d) =
      if is_ok result
      then if is_compatible b (info_of s).settings
        then (result, stream s, d)
        else convert b child s d
      else (result, null, d)
  use_child b child (result, _, d) = (result, null, d)

  -- `openStream`, given where to put the stream. The child's builder opens a stream in the same way,
  -- on one unit of fuel less; `none` if there is none.
  pub open_stream : ℕ → AudioStreamBase → Device W → Option Reply
  open_stream zero b d = none
  open_stream (suc fuel) b d =
      let (needed, child) = is_conversion_needed p q b b in
      let opened = open_stream fuel child d in
      let through : Option Reply = elim opened [
        | some reply ↦ some (use_child b child reply)
        | none ↦ none
      ] in
      if is_ok (is_valid_config b)
      then if needed then through else some (finish b child none d)
      else some (is_valid_config b, untouched, d)

  -- `openManagedStream`: the managed stream takes over whatever pointer there is in the end.
  pub open_managed_stream : AudioStreamBase → Device W → Option Reply
  open_managed_stream b d = open_stream 2 b d

  -- `openStream` of a shared pointer, which is reset first.
  pub open_shared_stream :
      AudioStreamBase → Device W → Option (Result × Option AudioStream × Device W)
  open_shared_stream b d = elim (open_stream 2 b d) [
    | none ↦ none
    | some (result, slot, d') ↦ some (result, if is_ok result then held slot else none, d')
  ]
