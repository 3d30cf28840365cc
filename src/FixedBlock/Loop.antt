-- ===== src/FixedBlock/Loop.antt =====
-- The loop of the writer passes whole blocks through, for a processor that takes them.
use android_audio_samples.Prelude.{
  ℕ, zero, suc, ◌≤◌, ◌<◌, ◌≡◌, refl, sym, ap, ◌∙◌, arith, List, ◌++◌, append_assoc, true, false,
  ltb, length, length-take, length-drop, take-append-drop, take, drop, pos, ltb_ℤ, ◌-ℤ◌, inl, inr,
  Bool-cases,
}
use android_audio_samples.FixedBlock.{
  FixedBlockAdapter, FixedBlockProcessor, Progress, write_through,
}

-- A processor that takes every block of the adapter's size, and what it has been given so far.
pub record TakesBlocks (p : FixedBlockProcessor) (size : ℕ) : Type 0 where
  pub delivered : p.S → List ℕ
  pub takes :
      (block : List ℕ) (s : p.S)
      → length block ≡ size
      → (p.on_process_fixed_block block s).0 ≡ pos size
  pub gets :
      (block : List ℕ) (s : p.S)
      → length block ≡ size
      → delivered (p.on_process_fixed_block block s).1 ≡ delivered s ++ block

module _ {p : FixedBlockProcessor} {size : ℕ} (t : TakesBlocks p size) where
  open p use {S, on_process_fixed_block}

  -- Where the loop ends for such a processor: less than a block, or just one, is left of the buffer.
  pub record Ends (buffer : List ℕ) (a : FixedBlockAdapter) (s : S) (result : Progress S)
      : Type 0 where
    pub left : List ℕ
    pub state : S
    pub ended : result ≡ Progress.going left (pos (length left)) a state
    pub short : length left ≤ a.size
    pub all : t.delivered state ++ left ≡ t.delivered s ++ buffer

  pub takes_of :
      (a : FixedBlockAdapter) (block : List ℕ) (s : S)
      → a.size ≡ size
      → length block ≡ a.size
      → (on_process_fixed_block block s).0 ≡ pos a.size
  takes_of a block s e h = t.takes block s (h ∙ e) ∙ ap pos (sym e)

  left_after :
      (n : ℕ) (buffer : List ℕ)
      → n < length buffer
      → pos (length buffer) -ℤ pos n ≡ pos (length (drop n buffer))
  unfolding ◌-ℤ◌
  left_after n buffer l = ground (arith, length-drop n buffer)

  write_through_more :
      (fuel : ℕ) (buffer : List ℕ) (a : FixedBlockAdapter) (s : S)
      → a.size ≡ size
      → a.size < length buffer
      → write_through p (suc fuel) (Progress.going buffer (pos (length buffer)) a s)
        ≡ write_through p fuel (
            Progress.going
              (drop a.size buffer)
              (pos (length (drop a.size buffer)))
              a
              (on_process_fixed_block (take a.size buffer) s).1)
  unfolding write_through
  write_through_more fuel buffer a s e l =
      let block : length (take a.size buffer) ≡ a.size = omega (arith, length-take a.size buffer) in
      let more : ltb_ℤ (pos a.size) (pos (length buffer)) ≡ true = ground arith in
      let fine : ltb_ℤ (pos a.size) (pos 0) ≡ false = ground arith in
      rw (takes_of a (take a.size buffer) s e block, more, fine, left_after a.size buffer l) refl

  write_through_enough :
      (fuel : ℕ) (buffer : List ℕ) (a : FixedBlockAdapter) (s : S)
      → a.size ≡ size
      → length buffer ≤ a.size
      → write_through p (suc fuel) (Progress.going buffer (pos (length buffer)) a s)
        ≡ Progress.going buffer (pos (length buffer)) a s
  unfolding write_through
  write_through_enough fuel buffer a s e l = ground arith

  pub write_through_last :
      (fuel : ℕ) (buffer : List ℕ) (a : FixedBlockAdapter) (s : S)
      → a.size ≡ size
      → 0 < fuel
      → length buffer ≤ a.size
      → write_through p fuel (Progress.going buffer (pos (length buffer)) a s)
        ≡ Progress.going buffer (pos (length buffer)) a s
  write_through_last zero buffer a s e h l = absurd (omega arith)
  write_through_last (suc fuel) buffer a s e h l = write_through_enough fuel buffer a s e l

  pub write_through-Ends :
      (fuel : ℕ) (buffer : List ℕ) (a : FixedBlockAdapter) (s : S)
      → a.size ≡ size
      → 0 < size
      → length buffer < fuel
      → Ends buffer a s (write_through p fuel (Progress.going buffer (pos (length buffer)) a s))
  write_through-Ends zero buffer a s e h l = absurd (omega arith)
  write_through-Ends (suc fuel) buffer a s e h l = elim (Bool-cases (ltb a.size (length buffer))) [
    | inl more ↦
        (let block = take a.size buffer in
          let s' = (on_process_fixed_block block s).1 in
          let big : a.size < length buffer = ground arith in
          let full : length block ≡ a.size = omega (arith, length-take a.size buffer) in
          let ih : Ends (drop a.size buffer) a s' _ =
            write_through-Ends fuel (drop a.size buffer) a s' e h
              (omega (arith, length-drop a.size buffer)) in
          record {
            left = ih.left;
            state = ih.state;
            ended = write_through_more fuel buffer a s e big ∙ ih.ended;
            short = ih.short;
            all =
                ih.all
                ∙ (ap (λ l. l ++ drop a.size buffer) (t.gets block s (full ∙ e))
                    ∙ (append_assoc (t.delivered s) block (drop a.size buffer)
                        ∙ ap (λ l. t.delivered s ++ l) (take-append-drop a.size buffer)));
          })
    | inr enough ↦ record {
      left = buffer;
      state = s;
      ended = write_through_enough fuel buffer a s e (ground arith);
      short = ground arith;
      all = refl;
    }
  ]
