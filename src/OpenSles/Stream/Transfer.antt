-- ===== src/OpenSles/Stream/Transfer.antt =====
-- The front end of the FIFO, which a stream without a data callback has: the blocking reads and writes
-- and the sizes of src/opensles/AudioStreamBuffered.cpp. The callback of OpenSL ES works at the back end
-- meanwhile, as far as this thread sees while it sleeps.
mod Laws
mod Bounds
mod Sizes
mod Tests
use android_audio_samples.Prelude.{
  ℕ, zero, suc, ◌*◌, ◌≡◌, List, [], ◌++◌, take, drop, Bool, true, false, not, ◌&&◌, ◌||◌, Option,
  none, some, ◌⊎◌, inl, inr, ℤ, pos, pos_part, ◌+ℤ◌, ◌-ℤ◌, ltb_ℤ, eqb_ℤ, i32, wrap32, if◌then◌else◌,
}
use android_audio_samples.Definitions.{Result, StreamState, is_ok}
use android_audio_samples.StreamBase.{
  AudioStreamBase, is_input, is_unspecified, convert_format_to_size_in_bytes,
}
use android_audio_samples.MonotonicCounter.{quotient, times}
use android_audio_samples.Fifo
use android_audio_samples.Fifo.{
  FifoBuffer, get_full_frames_available, convert_frames_to_bytes, new_fifo,
}
use android_audio_samples.OpenSles.Stream.{
  Outside, Stream, using_fifo, update_service_frame_counter,
}

abbrev burst_sum : Stream → ℕ → ℤ
burst_sum s n = times s.frames_per_burst n

-- The capacity that `allocateFifo` gives the FIFO: `capacityFrames`, for positive sizes. Its products and
-- sums are of `int32_t`.
pub fifo_capacity : Stream → ℤ
fifo_capacity s =
    let asked = s.base.buffer_capacity_in_frames in
    let least = wrap32 (burst_sum s 4) in
    let wanted = if ltb_ℤ (pos 1536) asked then asked else pos 1536 in
    let rounded = wrap32 (wrap32 (wanted +ℤ s.frames_per_burst) -ℤ pos 1) in
    let bursts = quotient rounded (pos_part s.frames_per_burst) in
    if is_unspecified asked
    then wrap32 (burst_sum s 16)
    else if ltb_ℤ least asked
    then wrap32 (burst_sum s (pos_part bursts))
    else least

-- `heap` is what the new storage holds.
unfoldable pub allocate_fifo : List ℕ → Stream → Stream
allocate_fifo heap s =
    let capacity = fifo_capacity s in
    let bytes_per_frame =
      convert_format_to_size_in_bytes s.base.format * pos_part s.base.channel_count in
    if using_fifo s
    then record s {
      fifo_buffer = some (new_fifo bytes_per_frame (pos_part capacity) heap);
      base = record s.base { buffer_capacity_in_frames = capacity };
    }
    else s

abbrev pub is_shut : StreamState → Bool
is_shut StreamState.closed = true
is_shut _ = false

pub set_buffer_size_in_frames : ℤ → Stream → (Result ⊎ ℤ) × Stream
set_buffer_size_in_frames requested s = elim s.fifo_buffer [
  | none ↦ (inl (if is_shut s.state then Result.error_closed else Result.error_unimplemented), s)
  | some f ↦
      let capacity = pos f.total_frames in
      let size =
        if ltb_ℤ capacity requested
        then capacity
        else if ltb_ℤ requested s.frames_per_burst
        then s.frames_per_burst
        else requested in
      if is_shut s.state
      then (inl Result.error_closed, s)
      else (inr size, record s { base = record s.base { buffer_size_in_frames = size } })
]

-- `mBackgroundRanAtNanoseconds` and the time of the last buffer, with a margin of 200 microseconds
pub predict_next_callback_time : Stream → ℤ
predict_next_callback_time s =
    if eqb_ℤ s.background_ran_at (pos 0)
    then pos 0
    else s.background_ran_at
      +ℤ quotient (times s.last_background_size 1000000000) (pos_part s.base.sample_rate)
      +ℤ pos 200000

-- one burst, where there is no estimate
pub burst_nanos : Stream → ℤ
burst_nanos s = quotient (burst_sum s 1000000000) (pos_part s.base.sample_rate)

-- `sleepForNanos`, not past the timeout, but a millisecond at least
pub sleep_time : Stream → ℤ → ℤ → ℤ
sleep_time s time_to_quit time_now =
    let wake = predict_next_callback_time s in
    let wake' = if ltb_ℤ time_to_quit wake then time_to_quit else wake in
    let nanos = wake' -ℤ time_now in
    if ltb_ℤ (pos 0) wake
    then (if ltb_ℤ nanos (pos 1000000) then pos 1000000 else nanos)
    else burst_nanos s

-- The frames that `write` may add without passing the threshold: `framesToWrite`.
pub frames_to_write : Stream → FifoBuffer → ℤ → ℤ
frames_to_write s f frames_left =
    let empty = wrap32 (s.base.buffer_size_in_frames -ℤ i32 (get_full_frames_available f)) in
    let fitting = if ltb_ℤ empty frames_left then empty else frames_left in
    if ltb_ℤ fitting (pos 0) then pos 0 else fitting

-- The caller's buffer, at the point that the data pointer has reached.
pub record Cursor : Type 0 where
  pub passed : List ℕ
  pub ahead : List ℕ

pub advance : ℕ → Cursor → Cursor
advance n c = record { passed = c.passed ++ take n c.ahead; ahead = drop n c.ahead }

-- One read or write of the loop: the result, the frames left, the buffer, and the stream. Without a FIFO
-- the source follows a null pointer: `none`.
pub transfer_once : Stream → Cursor → ℤ → Option (ℤ × ℤ × Cursor × Stream)
transfer_once s c left = elim s.fifo_buffer [
  | none ↦ none
  | some f ↦
      let (read, bytes, f1) = Fifo.read f c.ahead left in
      let (written, f2) = Fifo.write f c.ahead (frames_to_write s f left) in
      let result = if is_input s.base then read else written in
      let filled : Cursor =
        if is_input s.base then record { passed = c.passed; ahead = bytes } else c in
      let s' = record s { fifo_buffer = some (if is_input s.base then f1 else f2) } in
      if ltb_ℤ (pos 0) result
      then some
          (result, left -ℤ result, advance (pos_part (convert_frames_to_bytes f result)) filled, s')
      else some (result, left, filled, s')
]

-- The one error of the FIFO is `ErrorOutOfRange`.
pub answer : ℤ → ℤ → ℤ → Result ⊎ ℤ
answer num_frames left result =
    if ltb_ℤ result (pos 0) then inl Result.error_out_of_range else inr (num_frames -ℤ left)

abbrev pub is_given : Option (List ℕ) → Bool
is_given none = false
is_given (some bytes) = true

-- The checks of the arguments, with what is returned where one fails or there is nothing to do.
pub check_arguments : Stream → Option (List ℕ) → Option (List ℕ) → ℤ → ℤ → Option (Result ⊎ ℤ)
check_arguments s read_buffer write_buffer num_frames timeout =
    if is_given read_buffer && is_given write_buffer
    then some (inl Result.error_internal)
    else if is_input s.base && not (is_given read_buffer)
    then some (inl Result.error_null)
    else if not (is_input s.base) && not (is_given write_buffer)
    then some (inl Result.error_null)
    else if ltb_ℤ num_frames (pos 0)
    then some (inl Result.error_out_of_range)
    else if eqb_ℤ num_frames (pos 0)
    then some (inr num_frames)
    else if ltb_ℤ timeout (pos 0)
    then some (inl Result.error_out_of_range)
    else none

module _ (outside : Outside) (sleep : ℤ → Stream → outside.W → Stream × outside.W) where
  open outside use {W, nanoseconds}

  -- What a transfer returns, with the caller's buffer, the stream and the outside after it.
  abbrev pub Transferred : Type 0
  Transferred = (Result ⊎ ℤ) × List ℕ × Stream × W

  -- What follows a read or write: the sleep and the `next` round, if there is more to do in time.
  abbrev pub after_step :
      (Cursor → ℤ → Stream → W → Option Transferred)
      → ℤ
      → ℤ
      → ℤ
      → W
      → Option (ℤ × ℤ × Cursor × Stream)
      → Option Transferred
  after_step next num_frames timeout time_to_quit w step = elim step [
    | none ↦ none
    | some (result, left, c, s) ↦
        let now = nanoseconds w in
        let (slept, w') = sleep (sleep_time s time_to_quit now) s w in
        let rest = next c left slept w' in
        let ended = some (answer num_frames left result, c.passed ++ c.ahead, s, w) in
        if ltb_ℤ (pos 0) left && not (ltb_ℤ result (pos 0)) && ltb_ℤ (pos 0) timeout
        then (if ltb_ℤ now time_to_quit then rest else ended)
        else ended
  ]

  -- The loop, with `timeToQuit`; `none` where the fuel is spent, or where there is no FIFO.
  pub transfer_loop : ℕ → ℤ → ℤ → ℤ → Cursor → ℤ → Stream → W → Option Transferred
  transfer_loop zero num_frames timeout time_to_quit c left s w = none
  transfer_loop (suc fuel) num_frames timeout time_to_quit c left s w =
      after_step (transfer_loop fuel num_frames timeout time_to_quit) num_frames timeout
        time_to_quit w (transfer_once s c left)

  pub transfer : ℕ → Option (List ℕ) → Option (List ℕ) → ℤ → ℤ → Stream → W → Option Transferred
  transfer fuel read_buffer write_buffer num_frames timeout s w =
      let chosen = if is_input s.base then read_buffer else write_buffer in
      let buffer : List ℕ = elim chosen [ some bytes ↦ bytes | none ↦ [] ] in
      let start : Cursor = record { passed = []; ahead = buffer } in
      let time_to_quit = if ltb_ℤ (pos 0) timeout then nanoseconds w +ℤ timeout else pos 0 in
      elim (check_arguments s read_buffer write_buffer num_frames timeout) [
        | some early ↦ some (early, buffer, s, w)
        | none ↦ transfer_loop fuel num_frames timeout time_to_quit start num_frames s w
      ]

  -- What `write` and `read` do once their checks of the stream are passed.
  pub after_update : List ℕ → (Stream → W → Option Transferred) → Stream → W → Option Transferred
  after_update buffer body s w =
      let (result, s', w') = update_service_frame_counter outside false s w in
      if is_ok result then body s' w' else some (inl result, buffer, s', w')

  pub write : ℕ → List ℕ → ℤ → ℤ → Stream → W → Option Transferred
  write fuel buffer num_frames timeout s w =
      if is_shut s.state
      then some (inl Result.error_closed, buffer, s, w)
      else if is_input s.base
      then some (inl Result.error_unavailable, buffer, s, w)
      else after_update buffer (transfer fuel none (some buffer) num_frames timeout) s w

  pub read : ℕ → List ℕ → ℤ → ℤ → Stream → W → Option Transferred
  read fuel buffer num_frames timeout s w =
      if is_shut s.state
      then some (inl Result.error_closed, buffer, s, w)
      else if is_input s.base
      then after_update buffer (transfer fuel (some buffer) none num_frames timeout) s w
      else some (inl Result.error_unavailable, buffer, s, w)
