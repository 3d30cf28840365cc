-- ===== src/FixedBlock/Reader/Order.antt =====
-- The reader hands out the bytes as the processor gave them.
use android_audio_samples.Prelude.{
  ℕ, zero, suc, ◌+◌, ◌-◌, ◌*◌, ◌≤◌, ◌<◌, ◌≡◌, refl, sym, ap, ◌∙◌, arith, List, [], ◌++◌,
  append_assoc, append-nil, length, length-take, length-drop, take, drop, take_all, drop_all, true,
  false, Bool-cases, ltb, some, ℤ, pos, inl, inr,
}
use android_audio_samples.Fifo.{memcpy}
use android_audio_samples.FixedBlock.Reader.{FixedBlockReader, BlockSource, read_loop, read}
use android_audio_samples.FixedBlock.Reader.Rounds.{
  SuppliesBlocks, held, IsValid, held-take, empties, Delivers, after_round, by_round, chunk,
  bytes_of, round_uses_up, round_passes_through, round_reloads, take-memcpy, drop-memcpy,
  difference_zero,
}

-- A reader that is used up holds nothing, and one just loaded holds the block.
held_nothing : (r : FixedBlockReader) → r.valid ≤ r.position → held r ≡ []
held_nothing r h =
    drop_all r.position (take r.valid r.storage) (omega (arith, length-take r.valid r.storage))

module _ {source : BlockSource} {size : ℕ} (supply : SuppliesBlocks source size) where
  open source use {S, on_process_fixed_block}
  open supply use {given, supplies}

  -- A reader that is used up has handed out all that was given.
  used_up :
      (before : List ℕ) (r : FixedBlockReader) (s : S)
      → given s ≡ before ++ held r
      → r.valid ≤ r.position
      → given s ≡ before
  used_up before r s g h = g ∙ (ap (λ l. before ++ l) (held_nothing r h) ∙ append-nil before)

  stops :
      (fuel : ℕ) (before : List ℕ) (num_bytes : ℤ) (passed ahead : List ℕ) (r : FixedBlockReader)
      (s : S)
      → given s ≡ before ++ held r
      → IsValid r
      → r.size ≡ size
      → Delivers supply before num_bytes passed ahead 0
          (read_loop source (suc fuel) num_bytes passed ahead (pos 0) r s)
  unfolding read_loop
  stops fuel before num_bytes passed ahead r s g v e = record {
    out = [];
    reader = r;
    state = s;
    returned = refl;
    long = refl;
    all = g ∙ ap (λ l. l ++ held r) (sym (append-nil before));
    valid = v;
    same_size = e;
  }

  -- the loop with less fuel, for any reader that has given `before`
  abbrev Continues : ℕ → ℤ → Type 0
  Continues fuel num_bytes =
      (before passed ahead : List ℕ) (left : ℕ) (r : FixedBlockReader) (s : S)
      → given s ≡ before ++ held r
      → IsValid r
      → r.size ≡ size
      → left ≤ length ahead
      → 2 * left + empties r < fuel
      → Delivers supply before num_bytes passed ahead left
          (read_loop source fuel num_bytes passed ahead (pos left) r s)

  module _ (fuel : ℕ) (num_bytes : ℤ) (continues : Continues fuel num_bytes)
      (before passed ahead : List ℕ) (left : ℕ) (r : FixedBlockReader) (s : S)
      (g : given s ≡ before ++ held r) (v : IsValid r) (e : r.size ≡ size) (l : left ≤ length ahead)
      (some_left : 0 < left) (f : 2 * left + empties r < suc fuel) where
    abbrev Goal : Type 0
    Goal =
        Delivers supply before num_bytes passed ahead left
          (read_loop source (suc fuel) num_bytes passed ahead (pos left) r s)

    uses_up : ltb r.position r.valid ≡ true → Goal
    uses_up more =
        let n = chunk supply fuel num_bytes passed ahead left r s in
        let c = bytes_of supply fuel num_bytes passed ahead left r s in
        let ahead1 = memcpy ahead 0 c in
        let r1 : FixedBlockReader = record r { position = r.position + n } in
        let long : length c ≡ n = omega (
          arith,
          length-take n (drop r.position r.storage),
          length-drop r.position r.storage,
          v.whole,
          v.filled,
        ) in
        let inside : r.position + n ≤ r.valid = omega (arith, v.within) in
        let shorter : drop n ahead1 ≡ drop n ahead = drop-memcpy ahead c n long in
        let some_bytes : 0 < n = ground arith in
        by_round supply (round_uses_up supply fuel num_bytes passed ahead left r s some_left more) (
          after_round supply before num_bytes passed ahead ahead1 c n left _ long (omega arith)
            (take-memcpy ahead c n long) shorter
            (continues (before ++ c) (passed ++ take n ahead1) (drop n ahead1) (left - n) r1 s
              (g
                ∙ (ap (λ b. before ++ b) (sym (held-take r n inside))
                    ∙ sym (append_assoc before c (held r1))))
              (record {
                positive = v.positive;
                filled = v.filled;
                within = inside;
                whole = v.whole;
              })
              e (omega (arith, ap length shorter, length-drop n ahead)) (ground arith)))

    passes_through : ltb r.position r.valid ≡ false → r.size ≤ left → Goal
    passes_through used whole =
        let n = r.size in
        let result = on_process_fixed_block (take n ahead) s in
        let (gave, long, more) =
          supplies (take n ahead) s (omega (arith, length-take n ahead, e)) in
        let c = result.1 in
        let ahead2 = memcpy ahead 0 c in
        let shorter : drop n ahead2 ≡ drop n ahead = drop-memcpy ahead c n (long ∙ sym e) in
        let behind : r.valid ≤ r.position = ground arith in
        by_round supply
          (round_passes_through supply fuel num_bytes passed ahead left r s some_left used whole
            (gave ∙ ap pos (sym e)))
          (after_round supply before num_bytes passed ahead ahead2 c n left _ (long ∙ sym e) whole
            (take-memcpy ahead c n (long ∙ sym e)) shorter
            (continues (before ++ c) (passed ++ take n ahead2) (drop n ahead2) (left - n) r result.2
              (more
                ∙ (ap (λ b. b ++ c) (used_up before r s g behind)
                    ∙ sym (
                        ap (λ b. (before ++ c) ++ b) (held_nothing r behind)
                        ∙ append-nil (before ++ c))))
              v e (omega (arith, ap length shorter, length-drop n ahead))
              (ground (arith, v.positive))))

    reloads : ltb r.position r.valid ≡ false → left < r.size → Goal
    reloads used few =
        let result = on_process_fixed_block r.storage s in
        let (gave, long, more) = supplies r.storage s (v.whole ∙ e) in
        let loaded : FixedBlockReader = record r {
          storage = result.1;
          position = 0;
          valid = r.size;
        } in
        let full : held loaded ≡ result.1 = take_all r.size result.1 (omega (arith, long, e)) in
        let behind : r.valid ≤ r.position = ground arith in
        by_round supply
          (round_reloads supply fuel num_bytes passed ahead left r s some_left used few
            (gave ∙ ap pos (sym e)))
          (continues before passed ahead left loaded result.2
            (more
              ∙ (ap (λ b. b ++ result.1) (used_up before r s g behind)
                  ∙ ap (λ b. before ++ b) (sym full)))
            (record {
              positive = v.positive;
              filled = omega arith;
              within = omega arith;
              whole = long ∙ sym e;
            })
            e l (ground (arith, v.positive)))

    round-Delivers : Goal
    round-Delivers = elim (Bool-cases (ltb r.position r.valid)) [
      | inl more ↦ uses_up more
      | inr used ↦ elim (Bool-cases (ltb left r.size)) [
        | inl few ↦ reloads used (ground arith)
        | inr many ↦ passes_through used (ground arith)
      ]
    ]

  read_loop-Delivers : (fuel : ℕ) (num_bytes : ℤ) → Continues fuel num_bytes
  read_loop-Delivers zero num_bytes before passed ahead left r s g v e l f = absurd (omega arith)
  read_loop-Delivers (suc fuel) num_bytes before passed ahead zero r s g v e l f =
      stops fuel before num_bytes passed ahead r s g v e
  read_loop-Delivers (suc fuel) num_bytes before passed ahead (suc m) r s g v e l f =
      round-Delivers fuel num_bytes (read_loop-Delivers fuel num_bytes) before passed ahead (suc m)
        r s g v e l (omega arith) f

  -- For a processor that fills a whole block whenever it is asked, a valid reader and a buffer with room
  -- for `n` bytes: with more than `2 n + 1` rounds of fuel a `read` of `n` bytes returns `n`, the front of
  -- the buffer is the next `n` bytes of what the processor has given in its order and the rest of the
  -- buffer is as it was, the reader holds exactly the bytes that were given and not handed out, and it is
  -- valid again.
  pub read_delivers :
      (fuel n : ℕ) (before buffer : List ℕ) (r : FixedBlockReader) (s : S)
      → IsValid r
      → r.size ≡ size
      → given s ≡ before ++ held r
      → n ≤ length buffer
      → 2 * n + 1 < fuel
      → (out : List ℕ) × (r' : FixedBlockReader) × (s' : S) × (read source fuel buffer (pos n) r s
          ≡ some (pos n, out ++ drop n buffer, r', s'))
        × (length out ≡ n)
        × (given s' ≡ (before ++ out) ++ held r')
        × IsValid r'
        × (r'.size ≡ size)
  unfolding read
  read_delivers fuel n before buffer r s v e g l f =
      let enough : 2 * n + empties r < fuel = ground arith in
      let d = read_loop-Delivers fuel (pos n) before [] buffer n r s g v e l enough in
      let all_read =
        d.returned
        ∙ ap (λ k. some (k, d.out ++ drop n buffer, d.reader, d.state)) (difference_zero n) in
      (d.out, d.reader, d.state, all_read, d.long, d.all, d.valid, d.same_size)
