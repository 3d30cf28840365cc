-- ===== src/Fifo.antt =====
-- The circular buffer: include/oboe/FifoControllerBase.h, include/oboe/FifoBuffer.h and src/fifo.
-- `FifoController` and `FifoControllerIndirect` differ only in where the two counters live; the
-- atomic loads and stores are the reads and updates of the two counter fields.

mod Bytes
mod Window
pub mod Circular
pub mod Queue
mod Convert
mod Parts
pub mod Refine
mod Put
pub mod Run
pub mod ReadNow
pub mod Amount
mod Tests
use android_audio_samples.Prelude.{
  ℕ, ◌+◌, ◌-◌, ◌*◌, ◌%◌, ◌^◌, min, ◌++◌, Bool, true, false, List, ltb, leb, if◌then◌else◌, length,
  take, drop, replicate, ℤ, pos, negsuc, pos_part, ltb_ℤ, ◌-ℤ◌, u32, u64, to_u32, to_u64, i32,
  wrap32,
}

pub record FifoBuffer : Type 0 where
  pub total_frames : ℕ
  pub read_counter : ℕ
  pub write_counter : ℕ
  pub bytes_per_frame : ℕ
  pub storage : List ℕ
  pub storage_owned : Bool
  pub frames_read_count : ℕ
  pub frames_underrun_count : ℕ

-- `FifoController`: both counters start at 0. `new uint8_t[n]` leaves the bytes unspecified; they
-- are a parameter, of which `allocated` takes the requested number.
pub new_fifo : ℕ → ℕ → List ℕ → FifoBuffer
unfolding i32
new_fifo bytes_per_frame capacity_in_frames heap = record {
  total_frames = capacity_in_frames;
  read_counter = 0;
  write_counter = 0;
  bytes_per_frame = bytes_per_frame;
  storage = take (pos_part (i32 (u32 (bytes_per_frame * capacity_in_frames)))) heap;
  storage_owned = true;
  frames_read_count = 0;
  frames_underrun_count = 0;
}

-- The constructor over the caller's counters and storage: `FifoControllerIndirect`.
pub indirect_fifo : ℕ → ℕ → ℕ → ℕ → List ℕ → FifoBuffer
indirect_fifo bytes_per_frame capacity_in_frames read_value write_value data_storage = record {
  total_frames = capacity_in_frames;
  read_counter = read_value;
  write_counter = write_value;
  bytes_per_frame = bytes_per_frame;
  storage = data_storage;
  storage_owned = false;
  frames_read_count = 0;
  frames_underrun_count = 0;
}

pub get_full_frames_available : FifoBuffer → ℕ
get_full_frames_available f =
    if ltb f.write_counter f.read_counter
    then 0
    else let delta = f.write_counter - f.read_counter in
      if leb f.total_frames delta then f.total_frames else delta

pub get_empty_frames_available : FifoBuffer → ℕ
get_empty_frames_available f = u32 (f.total_frames + 2 ^ 32 - get_full_frames_available f)

abbrev pub get_read_index : FifoBuffer → ℕ
get_read_index f = u32 (f.read_counter % f.total_frames)

abbrev pub get_write_index : FifoBuffer → ℕ
get_write_index f = u32 (f.write_counter % f.total_frames)

abbrev pub advance_read_index : FifoBuffer → ℕ → FifoBuffer
advance_read_index f n = record f { read_counter = u64 (f.read_counter + n) }

abbrev pub advance_write_index : FifoBuffer → ℕ → FifoBuffer
advance_write_index f n = record f { write_counter = u64 (f.write_counter + n) }

-- `frames * mBytesPerFrame` is an unsigned 32-bit product, returned as an `int32_t`.
pub convert_frames_to_bytes : FifoBuffer → ℤ → ℤ
unfolding i32
convert_frames_to_bytes f frames = i32 (u32 (to_u32 frames * f.bytes_per_frame))

-- memcpy(&destination[at], bytes, n) for the n bytes given
unfoldable pub memcpy : List ℕ → ℕ → List ℕ → List ℕ
memcpy destination at bytes = take at destination ++ (bytes ++ drop (at + length bytes) destination)

-- the n bytes from &source[from] on
pub slice : List ℕ → ℕ → ℕ → List ℕ
slice source from n = take n (drop from source)

-- One `memcpy` of `read` or `write`, with the test on `numBytes` that guards it. The flag is false
-- where the guard returns `ErrorOutOfRange`.
pub copy_frames : FifoBuffer → List ℕ → ℕ → List ℕ → ℕ → ℤ → Bool × List ℕ
copy_frames f destination at source from frames =
    let num_bytes = convert_frames_to_bytes f frames in
    if ltb_ℤ num_bytes (pos 0)
    then (false, destination)
    else (true, memcpy destination at (slice source from (pos_part num_bytes)))

-- a byte offset, `&mStorage[convertFramesToBytes(n)]` or `source += convertFramesToBytes(n)`; the
-- offsets of a valid buffer are not negative
pub offset_of : FifoBuffer → ℕ → ℕ
offset_of f n = pos_part (convert_frames_to_bytes f (i32 n))

-- `Result::ErrorOutOfRange`
abbrev pub error_out_of_range : ℤ
error_out_of_range = negsuc 881

-- the copies of `read`: in two parts where the frames go round the end of the storage
pub read_parts : FifoBuffer → List ℕ → ℕ → ℕ → Bool × List ℕ
read_parts f buffer read_index frames_to_read =
    let source = offset_of f read_index in
    if ltb f.total_frames (u32 (read_index + frames_to_read))
    then (let frames1 = u32 (f.total_frames + 2 ^ 32 - read_index) in
        let (copied, buffer1) = copy_frames f buffer 0 f.storage source (i32 frames1) in
        let frames2 = u32 (frames_to_read + 2 ^ 32 - frames1) in
        if copied
        then copy_frames f buffer1 (offset_of f frames1) f.storage 0 (i32 frames2)
        else (false, buffer1))
    else copy_frames f buffer 0 f.storage source (i32 frames_to_read)

-- The result, the caller's buffer after the call, and the new state.
pub read : FifoBuffer → List ℕ → ℤ → ℤ × List ℕ × FifoBuffer
read f buffer num_frames =
    if ltb_ℤ (pos 0) num_frames
    then (let frames_to_read = min (to_u32 num_frames) (get_full_frames_available f) in
        let (copied, buffer') = read_parts f buffer (get_read_index f) frames_to_read in
        if copied
        then (i32 frames_to_read, buffer', advance_read_index f frames_to_read)
        else (error_out_of_range, buffer', f))
    else (pos 0, buffer, f)

-- the copies of `write`, into the storage
pub write_parts : FifoBuffer → List ℕ → ℕ → ℕ → Bool × List ℕ
write_parts f buffer write_index frames_to_write =
    let destination = offset_of f write_index in
    if ltb f.total_frames (u32 (write_index + frames_to_write))
    then (let frames1 = u32 (f.total_frames + 2 ^ 32 - write_index) in
        let (copied, storage1) = copy_frames f f.storage destination buffer 0 (i32 frames1) in
        let frames2 = u32 (frames_to_write + 2 ^ 32 - frames1) in
        if copied
        then copy_frames f storage1 0 buffer (offset_of f frames1) (i32 frames2)
        else (false, storage1))
    else copy_frames f f.storage destination buffer 0 (i32 frames_to_write)

pub write : FifoBuffer → List ℕ → ℤ → ℤ × FifoBuffer
write f buffer num_frames =
    if ltb_ℤ (pos 0) num_frames
    then (let frames_to_write = min (to_u32 num_frames) (get_empty_frames_available f) in
        let (copied, storage') = write_parts f buffer (get_write_index f) frames_to_write in
        let f' = record f { storage = storage' } in
        if copied
        then (i32 frames_to_write, advance_write_index f' frames_to_write)
        else (error_out_of_range, f'))
    else (pos 0, f)

-- `read`, and zeros for the frames that were not there. A negative `bytesToZero` would be a
-- `memset` of about 2 ^ 64 bytes; here it clears nothing.
pub read_now : FifoBuffer → List ℕ → ℤ → ℤ × List ℕ × FifoBuffer
read_now f buffer num_frames =
    let (frames_read, buffer', f') = read f buffer num_frames in
    if ltb_ℤ frames_read (pos 0)
    then (frames_read, buffer', f')
    else let frames_left = wrap32 (num_frames -ℤ frames_read) in
      let counted = record f' {
        frames_read_count = u64 (f'.frames_read_count + to_u64 frames_read);
        frames_underrun_count = u64 (f'.frames_underrun_count + to_u64 frames_left);
      } in
      let at = pos_part (convert_frames_to_bytes f frames_read) in
      let bytes_to_zero = pos_part (convert_frames_to_bytes f frames_left) in
      (
        frames_read,
        if ltb_ℤ (pos 0) frames_left
            then memcpy buffer' at (replicate bytes_to_zero 0)
            else buffer',
        counted,
      )
