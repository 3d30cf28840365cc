-- ===== src/FixedBlock.antt =====
-- The adapter that collects calls of any size into blocks of a fixed size:
-- src/common/FixedBlockAdapter.cpp and src/common/FixedBlockWriter.cpp.
mod Storage
mod Loop
mod Writer
mod Reader
mod Tests
use android_audio_samples.Prelude.{
  ℕ, zero, suc, ◌+◌, ◌-◌, min, List, [], Bool, true, false, ◌==◌, ltb, length, Option, some, none,
  if◌then◌else◌, take, drop, replicate, ℤ, pos, negsuc, pos_part, ltb_ℤ, ◌-ℤ◌,
}
use android_audio_samples.Fifo.{memcpy}

pub record FixedBlockAdapter : Type 0 where
  pub size : ℕ
  pub position : ℕ
  pub storage : List ℕ

-- `make_unique` sets the bytes to 0.
pub open_adapter : ℕ → FixedBlockAdapter
open_adapter bytes_per_fixed_block = record {
  size = bytes_per_fixed_block;
  position = 0;
  storage = replicate bytes_per_fixed_block 0;
}

-- `FixedBlockProcessor`, which the client implements: it takes a block, and returns the number of
-- bytes that it took or a negative error.
pub record FixedBlockProcessor : Type 1 where
  pub S : Type 0
  pub on_process_fixed_block : List ℕ → S → ℤ × S

-- A buffer is the list of the bytes that the caller gives. The number of bytes stored is the growth
-- of the position.
pub write_to_storage : List ℕ → FixedBlockAdapter → FixedBlockAdapter
write_to_storage buffer a =
    let bytes_to_store = min (length buffer) (a.size - a.position) in
    record a {
      position = a.position + bytes_to_store;
      storage = memcpy a.storage a.position (take bytes_to_store buffer);
    }

-- Where a part of `write` ends: with the bytes left and their number, or with the value returned.
pub data Progress (S : Type 0) : Type 0 where
  going : List ℕ → ℤ → FixedBlockAdapter → S → Progress S
  stopped : ℤ → FixedBlockAdapter → S → Progress S
  out_of_fuel : Progress S

module _ (processor : FixedBlockProcessor) where
  open processor use {S, on_process_fixed_block}

  -- a full storage goes to the processor
  pub flush_storage : List ℕ → FixedBlockAdapter → S → Progress S
  flush_storage buffer a s =
      let (bytes_written, s') = on_process_fixed_block a.storage s in
      let emptied = record a { position = 0 } in
      if ltb_ℤ bytes_written (pos 0)
      then Progress.stopped bytes_written a s'
      else if ltb_ℤ bytes_written (pos a.size)
      then Progress.stopped (negsuc 0) emptied s'
      else Progress.going buffer (pos (length buffer)) emptied s'

  -- the first part of `write`: bytes in storage are added to
  pub fill_storage : List ℕ → FixedBlockAdapter → S → Progress S
  fill_storage buffer a s =
      let a1 = write_to_storage buffer a in
      let left = drop (a1.position - a.position) buffer in
      if ltb 0 a.position
      then if a1.position == a1.size
        then flush_storage left a1 s
        else Progress.going left (pos (length left)) a1 s
      else Progress.going buffer (pos (length buffer)) a s

  -- the loop of `write`: whole blocks go to the processor straight from the buffer
  pub write_through : ℕ → Progress S → Progress S
  write_through zero p = Progress.out_of_fuel
  write_through (suc fuel) (going buffer bytes_left a s) =
      let (bytes_written, s') = on_process_fixed_block (take a.size buffer) s in
      let again = write_through fuel (
        Progress.going (drop (pos_part bytes_written) buffer) (bytes_left -ℤ bytes_written) a s') in
      if ltb_ℤ (pos a.size) bytes_left
      then if ltb_ℤ bytes_written (pos 0) then Progress.stopped bytes_written a s' else again
      else Progress.going buffer bytes_left a s
  write_through (suc fuel) (stopped result a s) = Progress.stopped result a s
  write_through (suc fuel) out_of_fuel = Progress.out_of_fuel

  -- the end of `write`: what is left is stored
  pub store_rest : ℤ → Progress S → Option (ℤ × FixedBlockAdapter × S)
  store_rest num_bytes (going buffer bytes_left a s) =
      let a1 = write_to_storage buffer a in
      let bytes_written = pos (a1.position - a.position) in
      if ltb_ℤ (pos 0) bytes_left
      then some (num_bytes -ℤ (bytes_left -ℤ bytes_written), a1, s)
      else some (num_bytes -ℤ bytes_left, a, s)
  store_rest num_bytes (stopped result a s) = some (result, a, s)
  store_rest num_bytes out_of_fuel = none

  -- The value returned, the adapter and the processor; `none` if the loop has not ended within `fuel`
  -- rounds, which a processor that takes no bytes brings about.
  pub write : ℕ → List ℕ → FixedBlockAdapter → S → Option (ℤ × FixedBlockAdapter × S)
  write fuel buffer a s =
      store_rest (pos (length buffer)) (write_through fuel (fill_storage buffer a s))
