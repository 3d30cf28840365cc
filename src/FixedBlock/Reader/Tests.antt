-- ===== src/FixedBlock/Reader/Tests.antt =====
-- A reader whose processor counts the bytes that it gives.
use android_audio_samples.Prelude.{
  ◌≡◌, refl, arith, ℕ, ◌+◌, ◌-ℤ◌, List, [], ◌∷◌, ◌++◌, length, drop, pos, negsuc, some, none,
}
use android_audio_samples.Fifo.{memcpy}
use android_audio_samples.FixedBlock.Reader.{
  FixedBlockReader, BlockSource, read, read_loop, read_from_storage,
}
use android_audio_samples.FixedBlock.Reader.Rounds.{SuppliesBlocks, IsValid, held}
use android_audio_samples.FixedBlock.Reader.Order.{read_delivers}

abbrev next_block : ℕ → List ℕ
next_block n = n ∷ (n + 1) ∷ (n + 2) ∷ (n + 3) ∷ []

abbrev counter : BlockSource
counter = record {
  S = List ℕ;
  on_process_fixed_block = λ b s. (pos 4, next_block (length s), s ++ next_block (length s));
}

abbrev counter_supplies_blocks : SuppliesBlocks counter 4
counter_supplies_blocks = record { given = λ s. s; supplies = λ b s h. (refl, refl, refl) }

-- One byte is left of a block that was loaded.
abbrev one_left : FixedBlockReader
one_left = record { size = 4; position = 3; valid = 4; storage = next_block 0 }

one_left-IsValid : IsValid one_left
one_left-IsValid = record {
  positive = omega arith;
  filled = omega arith;
  within = omega arith;
  whole = refl;
}

abbrev room : List ℕ
room = 90 ∷ 91 ∷ 92 ∷ 93 ∷ 94 ∷ 95 ∷ 96 ∷ 97 ∷ []

-- The byte held, a block read through, and two bytes of a block that is loaded.
read_bytes :
    read counter 20 room (pos 7) one_left (next_block 0)
    ≡ some (
      pos 7,
      3 ∷ 4 ∷ 5 ∷ 6 ∷ 7 ∷ 8 ∷ 9 ∷ 97 ∷ [],
      record { size = 4; position = 2; valid = 4; storage = next_block 8 },
      next_block 0 ++ (next_block 4 ++ next_block 8),
    )
unfolding read read_loop read_from_storage memcpy ◌-ℤ◌
read_bytes = refl

-- An error of the processor is what `read` returns, even after bytes have been read.
abbrev failing : BlockSource
failing = record { S = List ℕ; on_process_fixed_block = λ b s. (negsuc 8, b, s) }

read_error :
    read failing 20 room (pos 3) one_left []
    ≡ some
        (negsuc 8, 3 ∷ 91 ∷ 92 ∷ 93 ∷ 94 ∷ 95 ∷ 96 ∷ 97 ∷ [], record one_left { position = 4 }, [])
unfolding read read_loop read_from_storage memcpy ◌-ℤ◌
read_error = refl

-- A processor that gives no bytes to a read of a whole block is asked again and again.
abbrev dry : BlockSource
dry = record { S = List ℕ; on_process_fixed_block = λ b s. (pos 0, b, s) }

read_spins : read dry 20 room (pos 7) one_left [] ≡ none
unfolding read read_loop read_from_storage memcpy ◌-ℤ◌
read_spins = refl

read_delivers_example :
    (out : List ℕ) × (r' : FixedBlockReader) × (s' : List ℕ) × (read counter 20 room
        (pos 7)
        one_left
        (next_block 0)
      ≡ some (pos 7, out ++ drop 7 room, r', s'))
    × (length out ≡ 7)
    × (s' ≡ ((0 ∷ 1 ∷ 2 ∷ []) ++ out) ++ held r')
    × IsValid r'
    × (r'.size ≡ 4)
read_delivers_example =
    read_delivers counter_supplies_blocks 20 7 (0 ∷ 1 ∷ 2 ∷ []) room one_left (next_block 0)
      one_left-IsValid refl refl (omega arith) (omega arith)
