-- ===== src/Fifo/Tests.antt =====
-- Concrete runs of the circular buffer, and its theorems at concrete inputs.
use android_audio_samples.Prelude.{
  ℕ, ◌≡◌, refl, ◌*◌, arith, true, List, [], ◌∷◌, ◌++◌, replicate, pos, negsuc, i32, u64, ◌+◌, ◌-◌,
}
use android_audio_samples.Fifo.{
  FifoBuffer, memcpy, slice, new_fifo, read, write, read_now, read_parts, copy_frames, offset_of,
  convert_frames_to_bytes, get_full_frames_available,
}
use android_audio_samples.Fifo.Queue
use android_audio_samples.Fifo.Convert.{IsValid}
use android_audio_samples.Fifo.Refine.{contents, read_refines}
use android_audio_samples.Fifo.Put.{write_refines}
use android_audio_samples.Fifo.Run.{Call, put, get, run, run_queue, run_refines}
use android_audio_samples.Fifo.ReadNow.{read_now_refines, new_fifo-IsValid}

-- three frames of two bytes; two of them hold data, round the end of the storage
abbrev wrapped : FifoBuffer
wrapped = record {
  total_frames = 3;
  read_counter = 2;
  write_counter = 4;
  bytes_per_frame = 2;
  storage = 30 ∷ 31 ∷ 10 ∷ 11 ∷ 20 ∷ 21 ∷ [];
  storage_owned = true;
  frames_read_count = 5;
  frames_underrun_count = 1;
}

wrapped-IsValid : IsValid wrapped
wrapped-IsValid = omega arith

abbrev room : List ℕ
room = 9 ∷ 9 ∷ 9 ∷ 9 ∷ 9 ∷ 9 ∷ 9 ∷ []

read-wrapped : (read wrapped room (pos 2)).1 ≡ 20 ∷ 21 ∷ 30 ∷ 31 ∷ 9 ∷ 9 ∷ 9 ∷ []
unfolding read read_parts copy_frames offset_of convert_frames_to_bytes get_full_frames_available
    i32 memcpy slice
read-wrapped = refl

-- A negative request moves nothing.
read_negative : (read wrapped room (negsuc 4)).0 ≡ pos 0
unfolding read
read_negative = refl

read_refines_example :
    let (m, buffer', f') = read wrapped room (pos 5) in
    let (k, bytes, q) = Queue.read 2 (contents wrapped) 5 in
    (m ≡ pos k) × (buffer' ≡ memcpy room 0 bytes) × (contents f' ≡ q) × IsValid f'
read_refines_example = read_refines room 5 wrapped-IsValid (omega arith) (omega arith)

write_refines_example :
    let (m, f') = write wrapped room (pos 2) in
    let (k, q) = Queue.write 3 2 (contents wrapped) room 2 in
    (m ≡ pos k) × (contents f' ≡ q) × IsValid f'
write_refines_example =
    write_refines room 2 wrapped-IsValid (omega arith) (omega arith) (omega arith) (omega arith)

abbrev calls : List Call
calls = put room 2 ∷ get room 2 ∷ put room 3 ∷ get room 1 ∷ get room 3 ∷ []

run_refines_example : run wrapped calls ≡ run_queue 3 2 (contents wrapped) calls
run_refines_example = run_refines calls 4 wrapped-IsValid (omega arith) (omega arith)

read_now_refines_example :
    let (m, buffer', f') = read_now wrapped room (pos 3) in
    let (k, bytes, q) = Queue.read 2 (contents wrapped) 3 in
    (m ≡ pos k)
    × (buffer' ≡ memcpy room 0 (bytes ++ replicate ((3 - k) * 2) 0))
    × (f'.frames_read_count ≡ u64 (5 + k))
    × (f'.frames_underrun_count ≡ u64 (1 + (3 - k)))
    × (contents f' ≡ q)
    × IsValid f'
read_now_refines_example =
    read_now_refines room 3 wrapped-IsValid (omega arith) (omega arith) (omega arith)

new_fifo_good : IsValid (new_fifo 2 3 room) × (contents (new_fifo 2 3 room) ≡ Queue.empty)
new_fifo_good =
    new_fifo-IsValid 2 3 room (omega arith) (omega arith) (omega arith) (omega arith) (omega arith)
