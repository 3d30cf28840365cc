-- ===== src/FixedBlock/Reader/Rounds.antt =====
-- One round of the loop of the reader, for a processor that fills whole blocks.
use android_audio_samples.Prelude.{
  ℕ, zero, suc, ◌+◌, ◌-◌, min, ◌≤◌, ◌<◌, ◌≡◌, refl, sym, ap, subst, ◌∙◌, arith, List, [], ◌∷◌, ◌++◌,
  append_assoc, length, length-append, take, drop, take-take, take-append, drop-append, drop-drop,
  take-append-drop, true, false, ltb, Option, some, ℤ, pos, ltb_ℤ, eqb_ℤ, ◌-ℤ◌, if◌then◌else◌,
}
use android_audio_samples.Fifo.{memcpy}
use android_audio_samples.FixedBlock.Reader.{
  FixedBlockReader, BlockSource, Outcome, read_from_storage, read_loop,
}

-- A processor that always fills whole blocks; `given` is all that it has given so far.
pub record SuppliesBlocks (source : BlockSource) (size : ℕ) : Type 0 where
  pub given : source.S → List ℕ
  pub supplies :
      (b : List ℕ) (s : source.S)
      → length b ≡ size
      → let (n, block, s') = source.on_process_fixed_block b s in
        (n ≡ pos size) × (length block ≡ size) × (given s' ≡ given s ++ block)

-- The bytes that the reader holds and has not handed out.
abbrev pub held : FixedBlockReader → List ℕ
held r = drop r.position (take r.valid r.storage)

pub record IsValid (r : FixedBlockReader) : Type 0 where
  pub positive : 0 < r.size
  pub filled : r.valid ≤ r.size
  pub within : r.position ≤ r.valid
  pub whole : length r.storage ≡ r.size

-- `memcpy` to the start of a buffer.
pub take-memcpy : (d b : List ℕ) (n : ℕ) → length b ≡ n → take n (memcpy d 0 b) ≡ b
unfolding memcpy
take-memcpy d b n e = ap (λ k. take k (b ++ drop (0 + length b) d)) (sym e) ∙ take-append b _

pub drop-memcpy : (d b : List ℕ) (n : ℕ) → length b ≡ n → drop n (memcpy d 0 b) ≡ drop n d
unfolding memcpy
drop-memcpy d b n e =
    ap (λ k. drop k (b ++ drop (0 + length b) d)) (sym e)
    ∙ (drop-append b _ ∙ ap (λ k. drop k d) (omega (arith, e)))

take-drop-take :
    {A : Type 0} (n p v : ℕ) (xs : List A)
    → p + n ≤ v
    → take n (drop p (take v xs)) ≡ take n (drop p xs)
take-drop-take n zero v xs h = take-take n v xs (omega arith)
take-drop-take n (suc p) zero xs h = absurd (omega arith)
take-drop-take n (suc p) (suc v) [] h = refl
take-drop-take n (suc p) (suc v) (x ∷ xs) h = take-drop-take n p v xs (omega arith)

-- taking the next bytes of the storage
pub held-take :
    (r : FixedBlockReader) (n : ℕ)
    → r.position + n ≤ r.valid
    → take n (drop r.position r.storage) ++ held (record r { position = r.position + n }) ≡ held r
held-take r n h =
    ap (λ l. l ++ drop (r.position + n) (take r.valid r.storage))
      (sym (take-drop-take n r.position r.valid r.storage h))
    ∙ (ap (λ l. take n (held r) ++ l)
          (sym (drop-drop r.position n (r.position + n) (take r.valid r.storage) refl))
        ∙ take-append-drop n (held r))

-- Rounds that still may come: two for each byte, and one to load the storage if it is used up.
abbrev pub empties : FixedBlockReader → ℕ
empties r = if ltb r.position r.valid then 0 else 1

-- the caller's buffer after a round that brings `c`
joined :
    (passed c out ahead : List ℕ) (n left : ℕ)
    → length c ≡ n
    → n ≤ left
    → (passed ++ c) ++ (out ++ drop (left - n) (drop n ahead))
      ≡ passed ++ ((c ++ out) ++ drop left ahead)
joined passed c out ahead n left e h =
    append_assoc passed c _
    ∙ ap (λ l. passed ++ l)
        (sym (append_assoc c out _)
          ∙ ap (λ l. (c ++ out) ++ l) (drop-drop n (left - n) left ahead (omega arith)))

pub difference : (a b : ℕ) → b ≤ a → (pos a -ℤ pos b) ≡ pos (a - b)
unfolding ◌-ℤ◌
difference a b h = ground arith

pub difference_zero : (a : ℕ) → (pos a -ℤ pos 0) ≡ pos a
difference_zero a = difference a 0 (omega arith) ∙ ap pos (omega arith)

module _ {source : BlockSource} {size : ℕ} (supply : SuppliesBlocks source size) where
  open source use {S, on_process_fixed_block}
  open supply use {given, supplies}

  -- Where the loop leads: `left` bytes, the next ones after `before`.
  pub record Delivers (before : List ℕ) (num_bytes : ℤ) (passed ahead : List ℕ) (left : ℕ)
      (t : Option (Outcome source)) : Type 0 where
    pub out : List ℕ
    pub reader : FixedBlockReader
    pub state : S
    pub returned : t ≡ some (num_bytes -ℤ pos 0, passed ++ (out ++ drop left ahead), reader, state)
    pub long : length out ≡ left
    pub all : given state ≡ (before ++ out) ++ held reader
    pub valid : IsValid reader
    pub same_size : reader.size ≡ size

  -- A round that brings the bytes `c`, and then the others.
  pub after_round :
      (before : List ℕ) (num_bytes : ℤ) (passed ahead ahead1 c : List ℕ) (n left : ℕ)
      (t : Option (Outcome source))
      → length c ≡ n
      → n ≤ left
      → take n ahead1 ≡ c
      → drop n ahead1 ≡ drop n ahead
      → Delivers (before ++ c) num_bytes (passed ++ take n ahead1) (drop n ahead1) (left - n) t
      → Delivers before num_bytes passed ahead left t
  after_round before num_bytes passed ahead ahead1 c n left t e h a b d = record {
    out = c ++ d.out;
    reader = d.reader;
    state = d.state;
    returned =
        d.returned
        ∙ ap (λ l. some (num_bytes -ℤ pos 0, l, d.reader, d.state))
            (ap (λ l. (passed ++ l) ++ (d.out ++ drop (left - n) (drop n ahead1))) a
              ∙ (ap (λ l. (passed ++ c) ++ (d.out ++ drop (left - n) l)) b
                  ∙ joined passed c d.out ahead n left e h));
    long = omega (arith, length-append c d.out, e, d.long);
    all = d.all ∙ ap (λ l. l ++ held d.reader) (append_assoc before c d.out);
    valid = d.valid;
    same_size = d.same_size;
  }

  pub by_round :
      {before : List ℕ} {num_bytes : ℤ} {passed ahead : List ℕ} {left : ℕ}
      {t t' : Option (Outcome source)}
      → t ≡ t'
      → Delivers before num_bytes passed ahead left t'
      → Delivers before num_bytes passed ahead left t
  by_round {before} {num_bytes} {passed} {ahead} {left} {t} {t'} e d =
      subst (λ o. Delivers before num_bytes passed ahead left o) (sym e) d

  -- the rounds of the loop
  module _ (fuel : ℕ) (num_bytes : ℤ) (passed ahead : List ℕ) (left : ℕ) (r : FixedBlockReader)
      (s : S) where
    abbrev pub chunk : ℕ
    chunk = min left (r.valid - r.position)

    abbrev pub bytes_of : List ℕ
    bytes_of = take chunk (drop r.position r.storage)

    pub round_uses_up :
        0 < left
        → ltb r.position r.valid ≡ true
        → let ahead1 = memcpy ahead 0 bytes_of in
          read_loop source (suc fuel) num_bytes passed ahead (pos left) r s
          ≡ read_loop source fuel num_bytes
              (passed ++ take chunk ahead1)
              (drop chunk ahead1)
              (pos (left - chunk))
              (record r { position = r.position + chunk })
              s
    unfolding read_loop read_from_storage
    round_uses_up h e =
        let more : ltb_ℤ (pos 0) (pos left) ≡ true = ground arith in
        rw (more, e, difference left chunk (omega arith)) refl

    pub round_passes_through :
        0 < left
        → ltb r.position r.valid ≡ false
        → r.size ≤ left
        → let result = on_process_fixed_block (take r.size ahead) s in
          let ahead2 = memcpy ahead 0 result.1 in
          result.0 ≡ pos r.size
          → read_loop source (suc fuel) num_bytes passed ahead (pos left) r s
            ≡ read_loop source fuel num_bytes
                (passed ++ take r.size ahead2)
                (drop r.size ahead2)
                (pos (left - r.size))
                r
                result.2
    unfolding read_loop
    round_passes_through h e l g =
        let more : ltb_ℤ (pos 0) (pos left) ≡ true = ground arith in
        let big : ltb_ℤ (pos left) (pos r.size) ≡ false = ground arith in
        let fine : ltb_ℤ (pos r.size) (pos 0) ≡ false = ground arith in
        rw (more, e, big, g, fine, difference left r.size l) refl

    pub round_reloads :
        0 < left
        → ltb r.position r.valid ≡ false
        → left < r.size
        → let result = on_process_fixed_block r.storage s in
          result.0 ≡ pos r.size
          → read_loop source (suc fuel) num_bytes passed ahead (pos left) r s
            ≡ read_loop source fuel num_bytes passed ahead
                (pos left)
                (record r { storage = result.1; position = 0; valid = r.size })
                result.2
    unfolding read_loop
    round_reloads h e l g =
        let more : ltb_ℤ (pos 0) (pos left) ≡ true = ground arith in
        let small : ltb_ℤ (pos left) (pos r.size) ≡ true = ground arith in
        let fine : ltb_ℤ (pos r.size) (pos 0) ≡ false = ground arith in
        let some_bytes : eqb_ℤ (pos r.size) (pos 0) ≡ false = ground arith in
        rw (more, e, small, g, fine, some_bytes) refl
