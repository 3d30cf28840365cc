-- ===== src/FixedBlock/Writer.antt =====
-- The writer delivers the bytes written, in their order, in whole blocks.
use android_audio_samples.Prelude.{
  ℕ, ◌+◌, ◌-◌, ◌≤◌, ◌<◌, ◌≡◌, refl, sym, ap, ◌∙◌, arith, List, [], ◌++◌, append_assoc, true, false,
  ◌==◌, ltb, length, length-drop, take_all, drop_all, append-nil, Option, some, take, drop, ℤ, pos,
  ltb_ℤ, ◌-ℤ◌, ◌⊎◌, inl, inr, Bool-cases,
}
use android_audio_samples.FixedBlock.{
  FixedBlockAdapter, FixedBlockProcessor, Progress, write_to_storage, flush_storage, fill_storage,
  write_through, store_rest, write,
}
use android_audio_samples.FixedBlock.Storage.{
  IsValid, stored, fits, write_to_storage-IsValid, position-write_to_storage, size-write_to_storage,
  stored-write_to_storage, stored-joined,
}
use android_audio_samples.FixedBlock.Loop.{
  TakesBlocks, takes_of, write_through_last, write_through-Ends,
}

module _ {p : FixedBlockProcessor} {size : ℕ} (t : TakesBlocks p size) where
  open p use {S, on_process_fixed_block}

  -- Where the first part leads: a block is flushed when it is full, and only then are bytes left.
  record Filled (buffer : List ℕ) (a : FixedBlockAdapter) (s : S) (result : Progress S)
      : Type 0 where
    left : List ℕ
    adapter : FixedBlockAdapter
    state : S
    filled : result ≡ Progress.going left (pos (length left)) adapter state
    same_size : adapter.size ≡ a.size
    valid : IsValid adapter
    clear : (adapter.position ≡ 0) ⊎ (left ≡ [])
    fewer : length left ≤ length buffer
    all : (t.delivered state ++ stored adapter) ++ left ≡ (t.delivered s ++ stored a) ++ buffer

  kept :
      (buffer : List ℕ) (a : FixedBlockAdapter) (s : S)
      → IsValid a
      → (t.delivered s ++ stored (write_to_storage buffer a))
          ++ drop ((write_to_storage buffer a).position - a.position) buffer
        ≡ (t.delivered s ++ stored a) ++ buffer
  kept buffer a s v =
      append_assoc (t.delivered s) (stored (write_to_storage buffer a)) _
      ∙ (ap (λ l. t.delivered s ++ l) (stored-joined buffer a v)
          ∙ sym (append_assoc (t.delivered s) (stored a) buffer))

  flush_storage_lem :
      (left : List ℕ) (a : FixedBlockAdapter) (s : S)
      → IsValid a
      → a.size ≡ size
      → flush_storage p left a s
        ≡ Progress.going left
            (pos (length left))
            (record a { position = 0 })
            (on_process_fixed_block a.storage s).1
  unfolding flush_storage
  flush_storage_lem left a s v e = rw (takes_of t a a.storage s e v.whole) (ground arith)

  fill_storage-Filled :
      (buffer : List ℕ) (a : FixedBlockAdapter) (s : S)
      → IsValid a
      → a.size ≡ size
      → Filled buffer a s (fill_storage p buffer a s)
  unfolding fill_storage
  fill_storage-Filled buffer a s v e =
      let a1 = write_to_storage buffer a in
      let grown : a1.position ≡ a.position + fits buffer a v =
        position-write_to_storage buffer a v in
      elim (Bool-cases (ltb 0 a.position)) [
        | inr empty ↦ record {
          left = buffer;
          adapter = a;
          state = s;
          filled = rw (empty) refl;
          same_size = refl;
          valid = v;
          clear = inl (ground arith);
          fewer = omega arith;
          all = refl;
        }
        | inl some_stored ↦ elim (Bool-cases (a1.position == a1.size)) [
          | inl full ↦
              (let left = drop (a1.position - a.position) buffer in
                let v1 = write_to_storage-IsValid buffer a v in
                let same : a1.size ≡ size = size-write_to_storage buffer a v ∙ e in
                let whole_block : stored a1 ≡ a1.storage =
                  take_all a1.position a1.storage (ground (arith, v1.whole)) in
                record {
                  left = left;
                  adapter = record a1 { position = 0 };
                  state = (on_process_fixed_block a1.storage s).1;
                  filled = rw (some_stored, full) (flush_storage_lem left a1 s v1 same);
                  same_size = size-write_to_storage buffer a v;
                  valid = record { positive = v1.positive; inside = omega arith; whole = v1.whole };
                  clear = inl refl;
                  fewer = omega (arith, length-drop (a1.position - a.position) buffer);
                  all =
                      ap (λ l. l ++ left)
                        (append-nil (t.delivered (on_process_fixed_block a1.storage s).1)
                          ∙ (t.gets a1.storage s (v1.whole ∙ same)
                              ∙ ap (λ l. t.delivered s ++ l) (sym whole_block)))
                      ∙ kept buffer a s v;
                })
          | inr room ↦
              (let left = drop (a1.position - a.position) buffer in
                let v1 = write_to_storage-IsValid buffer a v in
                record {
                  left = left;
                  adapter = a1;
                  state = s;
                  filled = rw (some_stored, room) refl;
                  same_size = size-write_to_storage buffer a v;
                  valid = v1;
                  clear = inr (
                      drop_all (a1.position - a.position) buffer
                        (ground (arith, grown, size-write_to_storage buffer a v)));
                  fewer = omega (arith, length-drop (a1.position - a.position) buffer);
                  all = kept buffer a s v;
                })
        ]
      ]

-- The end of `write`, where the bytes left fit into the storage.
record Stores (n : ℕ) (left : List ℕ) (a : FixedBlockAdapter) {S : Type 0} (s : S)
    (result : Option (ℤ × FixedBlockAdapter × S)) : Type 0 where
  adapter : FixedBlockAdapter
  returned : result ≡ some (pos n, adapter, s)
  valid : IsValid adapter
  all : stored adapter ≡ stored a ++ left

nothing_left : (left : List ℕ) → length left ≡ 0 → left ≡ []
nothing_left left h = drop_all 0 left (omega arith)

all_counted : (n l k : ℕ) → k ≡ l → pos n -ℤ (pos l -ℤ pos k) ≡ pos n
unfolding ◌-ℤ◌
all_counted n l k e = ground arith

sub_zero : (n : ℕ) → pos n -ℤ pos 0 ≡ pos n
unfolding ◌-ℤ◌
sub_zero n = ground arith

store_rest-Stores :
    (p : FixedBlockProcessor) (n : ℕ) (left : List ℕ) (a : FixedBlockAdapter) (s : p.S)
    → IsValid a
    → length left ≤ a.size - a.position
    → Stores n left a s (store_rest p (pos n) (Progress.going left (pos (length left)) a s))
unfolding store_rest
store_rest-Stores p n left a s v h = elim (Bool-cases (ltb 0 (length left))) [
  | inl more ↦ record {
    adapter = write_to_storage left a;
    returned =
        (let some_left : ltb_ℤ (pos 0) (pos (length left)) ≡ true = ground arith in
          let grown : (write_to_storage left a).position - a.position ≡ length left =
            omega (arith, position-write_to_storage left a v) in
          rw (some_left, all_counted n (length left) _ grown) refl);
    valid = write_to_storage-IsValid left a v;
    all =
        stored-write_to_storage left a v
        ∙ ap (λ l. stored a ++ l) (take_all (fits left a v) left (omega arith));
  }
  | inr none_left ↦ record {
    adapter = a;
    returned =
        (let no_more : ltb_ℤ (pos 0) (pos (length left)) ≡ false = ground arith in
          let none : length left ≡ 0 = ground arith in
          rw (no_more, none) (ap (λ m. some (m, a, s)) (sub_zero n)));
    valid = v;
    all =
        sym (append-nil (stored a))
        ∙ ap (λ l. stored a ++ l) (sym (nothing_left left (ground arith)));
  }
]

-- For a processor that takes every block, `write` returns the number of bytes written and keeps the
-- adapter valid. What the processor has been given, followed by what is stored, grows by those bytes,
-- in their order. More rounds of the loop than there are bytes are enough.
pub write_delivers :
    {p : FixedBlockProcessor} (fuel : ℕ) (buffer : List ℕ) (a : FixedBlockAdapter) (s : p.S)
    (t : TakesBlocks p a.size)
    → IsValid a
    → length buffer < fuel
    → (a' : FixedBlockAdapter) × (s' : p.S) × (write p fuel buffer a s
        ≡ some (pos (length buffer), a', s'))
      × IsValid a'
      × (t.delivered s' ++ stored a' ≡ (t.delivered s ++ stored a) ++ buffer)
unfolding write
write_delivers {p} fuel buffer a s t v l = elim first.clear [
  | inl clear ↦
      (let loop =
          write_through-Ends t fuel first.left first.adapter first.state first.same_size
            (omega (arith, v.positive)) (omega (arith, first.fewer)) in
        let last =
          store_rest-Stores p (length buffer) loop.left first.adapter loop.state first.valid
            (omega (arith, loop.short, clear)) in
        let emptied : stored first.adapter ≡ [] = ap (λ m. take m first.adapter.storage) clear in
        (
          last.adapter,
          loop.state,
          ap (λ r. store_rest p (pos (length buffer)) (write_through p fuel r)) first.filled
              ∙ (ap (store_rest p (pos (length buffer))) loop.ended ∙ last.returned),
          last.valid,
          ap (λ l. t.delivered loop.state ++ l) (last.all ∙ ap (λ l. l ++ loop.left) emptied)
              ∙ (loop.all
                  ∙ (sym (
                        ap (λ l. l ++ first.left)
                          (ap (λ l. t.delivered first.state ++ l) emptied
                            ∙ append-nil (t.delivered first.state)))
                      ∙ first.all)),
        ))
  | inr clear ↦
      (let none : length first.left ≡ 0 = ap length clear in
        let last =
          store_rest-Stores p (length buffer) first.left first.adapter first.state first.valid
            (omega (arith, none)) in
        (
          last.adapter,
          first.state,
          ap (λ r. store_rest p (pos (length buffer)) (write_through p fuel r)) first.filled
              ∙ (ap (store_rest p (pos (length buffer))) (
                    write_through_last t fuel first.left first.adapter first.state first.same_size
                      (omega arith) (omega (arith, none)))
                  ∙ last.returned),
          last.valid,
          ap (λ l. t.delivered first.state ++ l) last.all
              ∙ (sym (append_assoc (t.delivered first.state) (stored first.adapter) first.left)
                  ∙ first.all),
        ))
]
  where
    first : Filled t buffer a s (fill_storage p buffer a s)
    first = fill_storage-Filled t buffer a s v refl
