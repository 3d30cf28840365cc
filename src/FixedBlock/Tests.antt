-- ===== src/FixedBlock/Tests.antt =====
-- A writer whose processor keeps a log of the blocks.
use android_audio_samples.Prelude.{◌≡◌, ◌-ℤ◌, refl, arith, ℕ, List, [], ◌∷◌, ◌++◌, pos, some}
use android_audio_samples.FixedBlock.{
  FixedBlockAdapter, FixedBlockProcessor, write, store_rest, write_through, fill_storage,
  write_to_storage, flush_storage,
}
use android_audio_samples.Fifo.{memcpy}
use android_audio_samples.FixedBlock.Storage.{IsValid, stored}
use android_audio_samples.FixedBlock.Writer.{write_delivers}
use android_audio_samples.FixedBlock.Loop.{TakesBlocks}

abbrev logger : FixedBlockProcessor
logger = record { S = List ℕ; on_process_fixed_block = λ block s. (pos 4, s ++ block) }

abbrev logger_takes_blocks : TakesBlocks logger 4
logger_takes_blocks = record {
  delivered = λ s. s;
  takes = λ block s h. refl;
  gets = λ block s h. refl;
}

abbrev half_full : FixedBlockAdapter
half_full = record { size = 4; position = 2; storage = 1 ∷ 2 ∷ 0 ∷ 0 ∷ [] }

half_full-IsValid : IsValid half_full
half_full-IsValid = record { positive = omega arith; inside = omega arith; whole = refl }

abbrev bytes : List ℕ
bytes = 3 ∷ 4 ∷ 5 ∷ 6 ∷ 7 ∷ 8 ∷ 9 ∷ []

write_bytes :
    write logger 8 bytes half_full []
    ≡ some (
      pos 7,
      record { size = 4; position = 1; storage = 9 ∷ 2 ∷ 3 ∷ 4 ∷ [] },
      1 ∷ 2 ∷ 3 ∷ 4 ∷ 5 ∷ 6 ∷ 7 ∷ 8 ∷ [],
    )
unfolding write store_rest write_through fill_storage write_to_storage flush_storage ◌-ℤ◌ memcpy
write_bytes = refl

write_delivers_example :
    (a' : FixedBlockAdapter) × (s' : List ℕ) × (write logger 8 bytes half_full []
      ≡ some (pos 7, a', s'))
    × IsValid a'
    × (s' ++ stored a' ≡ 1 ∷ 2 ∷ 3 ∷ 4 ∷ 5 ∷ 6 ∷ 7 ∷ 8 ∷ 9 ∷ [])
write_delivers_example =
    write_delivers 8 bytes half_full [] logger_takes_blocks half_full-IsValid (omega arith)
