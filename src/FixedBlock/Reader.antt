-- ===== src/FixedBlock/Reader.antt =====
-- The adapter that serves calls of any size from blocks of a fixed size:
-- src/common/FixedBlockReader.cpp, with the `close` of src/common/FixedBlockAdapter.cpp.
mod Rounds
mod Order
mod Tests
use android_audio_samples.Prelude.{
  ℕ, zero, suc, ◌+◌, ◌-◌, min, List, [], ◌++◌, Bool, true, false, ltb, Option, some, none,
  if◌then◌else◌, take, drop, replicate, ℤ, pos, pos_part, ltb_ℤ, eqb_ℤ, ◌-ℤ◌,
}
use android_audio_samples.Fifo.{memcpy}

-- `valid` is the number of bytes of the storage that the processor filled.
pub record FixedBlockReader : Type 0 where
  pub size : ℕ
  pub position : ℕ
  pub valid : ℕ
  pub storage : List ℕ

pub open_reader : ℕ → FixedBlockReader
open_reader bytes_per_fixed_block = record {
  size = bytes_per_fixed_block;
  position = 0;
  valid = 0;
  storage = replicate bytes_per_fixed_block 0;
}

pub close_reader : FixedBlockReader → FixedBlockReader
close_reader r = record r { size = 0; position = 0; storage = [] }

-- A `FixedBlockProcessor` that fills the block it is given, and returns a number of bytes or a negative
-- error.
pub record BlockSource : Type 1 where
  pub S : Type 0
  pub on_process_fixed_block : List ℕ → S → ℤ × List ℕ × S

-- The number of bytes read, the buffer, and the reader, which has bytes in storage.
pub read_from_storage : List ℕ → ℕ → FixedBlockReader → ℕ × List ℕ × FixedBlockReader
read_from_storage buffer num_bytes r =
    let bytes_to_read = min num_bytes (r.valid - r.position) in
    (
      bytes_to_read,
      memcpy buffer 0 (take bytes_to_read (drop r.position r.storage)),
      record r { position = r.position + bytes_to_read },
    )

module _ (source : BlockSource) where
  open source use {S, on_process_fixed_block}

  -- What a read returns, with the caller's buffer, the reader and the processor after it.
  abbrev pub Outcome : Type 0
  Outcome = ℤ × List ℕ × FixedBlockReader × S

  -- The loop of `read`: the buffer up to `buffer`, and from there on, and `bytesLeft`; `none` where
  -- the fuel is spent.
  pub read_loop : ℕ → ℤ → List ℕ → List ℕ → ℤ → FixedBlockReader → S → Option Outcome
  read_loop zero num_bytes passed ahead left r s = none
  read_loop (suc fuel) num_bytes passed ahead left r s =
      let (n, ahead1, r1) = read_from_storage ahead (pos_part left) r in
      let use_up =
        read_loop fuel num_bytes (passed ++ take n ahead1) (drop n ahead1) (left -ℤ pos n) r1 s in
      let (bytes2, block2, s2) = on_process_fixed_block (take r.size ahead) s in
      let ahead2 = memcpy ahead 0 block2 in
      let n2 = pos_part bytes2 in
      let through =
        read_loop fuel num_bytes (passed ++ take n2 ahead2) (drop n2 ahead2) (left -ℤ bytes2) r
          s2 in
      let (bytes3, block3, s3) = on_process_fixed_block r.storage s in
      let refilled = record r { storage = block3 } in
      let loaded = record refilled { position = 0; valid = pos_part bytes3 } in
      let reload = read_loop fuel num_bytes passed ahead left loaded s3 in
      if ltb_ℤ (pos 0) left
      then if ltb r.position r.valid
        then use_up
        else if ltb_ℤ left (pos r.size)
        then if ltb_ℤ bytes3 (pos 0)
          then some (bytes3, passed ++ ahead, refilled, s3)
          else if eqb_ℤ bytes3 (pos 0)
          then some (num_bytes -ℤ left, passed ++ ahead, loaded, s3)
          else reload
        else if ltb_ℤ bytes2 (pos 0)
        then some (bytes2, passed ++ ahead2, r, s2)
        else through
      else some (num_bytes -ℤ left, passed ++ ahead, r, s)

  pub read : ℕ → List ℕ → ℤ → FixedBlockReader → S → Option Outcome
  read fuel buffer num_bytes r s = read_loop fuel num_bytes [] buffer num_bytes r s
