-- ===== src/LockFreeQueue/Refine.antt =====
-- The lock-free queue against the list of its items.
use Prim.Native.Nat.{◌∣◌}
use native.Mathlib.Nat.{mod-mod_of_dvd, mod-lt}
use android_audio_samples.Prelude.{
  ℕ, suc, ◌+◌, ◌-◌, ◌%◌, ◌^◌, ◌≤◌, ◌<◌, ◌==◌, ◌≡◌, refl, sym, ap, ◌∙◌, arith, List, [], ◌∷◌, ◌++◌,
  length, length-append, get_or, get_or-append_left, get_or-append_right, true, false, Bool-cases,
  ltb, u32, inl, inr,
}
use android_audio_samples.LockFreeQueue.{
  LockFreeQueue, size, is_empty, is_full, mask, set_item, pop, push, peek,
}
use android_audio_samples.LockFreeQueue.Slots.{
  length-set_item, get_or-set_item, get_or-set_item_other, apart, difference, not_below, zero_left,
  next,
}
use android_audio_samples.LockFreeQueue.Calls.{
  Call, append, remove, look, measure, Seen, perform, perform_list, run, run_list,
}

module _ {A : Type 0} (capacity : ℕ) where
  -- The items of a queue from which `passed` items have gone.
  pub record Holds (items : List A) (q : LockFreeQueue A) : Type 0 where
    pub passed : ℕ
    pub reads : q.read_counter ≡ passed % 2 ^ 32
    pub writes : q.write_counter ≡ (passed + length items) % 2 ^ 32
    pub long : length q.buffer ≡ capacity
    pub fits : length items ≤ capacity
    pub places :
        (i : ℕ) (d : A)
        → i < length items
        → get_or q.buffer ((passed + i) % capacity) d ≡ get_or items i d

  -- A queue starts with both counters at 0, and with no item.
  new-Holds :
      (places : List A)
      → length places ≡ capacity
      → Holds [] (record { buffer = places; write_counter = 0; read_counter = 0 })
  new-Holds places h = record {
    passed = 0;
    reads = refl;
    writes = refl;
    long = h;
    fits = omega arith;
    places = λ i d l. absurd (omega (arith, l));
  }

  module _ (positive : 0 < capacity) (small : capacity < 2 ^ 32) (divides : capacity ∣ 2 ^ 32) where
    size_lem :
        (items : List A) (q : LockFreeQueue A) → Holds items q → size capacity q ≡ length items
    unfolding size
    size_lem items q h =
        rw (h.reads, h.writes) (difference h.passed (length items) (omega (arith, h.fits, small)))

    is_empty_lem :
        (items : List A) (q : LockFreeQueue A)
        → Holds items q
        → is_empty capacity q ≡ (length items == 0)
    unfolding is_empty
    is_empty_lem items q h = ground (arith, h.reads, h.writes, h.fits, small)

    first :
        (x : A) (items : List A) (q : LockFreeQueue A) (d : A)
        → Holds (x ∷ items) q
        → get_or q.buffer (mask capacity q.read_counter) d ≡ x
    first x items q d h =
        ap (λ n. get_or q.buffer (mask capacity n) d) h.reads
        ∙ (ap (λ n. get_or q.buffer n d)
              (mod-mod_of_dvd capacity h.passed divides ∙ ap (λ n. n % capacity) (omega arith))
            ∙ h.places 0 d (omega arith))

    room :
        (items : List A) (q : LockFreeQueue A)
        → Holds items q
        → length items < capacity
        → is_full capacity q ≡ false
    unfolding is_full
    room items q h l = rw (size_lem items q h) (ground arith)

    no_room :
        (items : List A) (q : LockFreeQueue A)
        → Holds items q
        → capacity ≤ length items
        → is_full capacity q ≡ true
    unfolding is_full
    no_room items q h l = rw (size_lem items q h) (ground (arith, h.fits))

    Holds-tail :
        (x : A) (items : List A) (q : LockFreeQueue A)
        → Holds (x ∷ items) q
        → Holds items (record q { read_counter = u32 (q.read_counter + 1) })
    Holds-tail x items q h = record {
      passed = h.passed + 1;
      reads = ap (λ n. u32 (n + 1)) h.reads ∙ next h.passed;
      writes = h.writes ∙ ap (λ n. n % 2 ^ 32) (omega arith);
      long = h.long;
      fits = omega (arith, h.fits);
      places = λ i d l.
          ap (λ n. get_or q.buffer (n % capacity) d) (omega arith)
          ∙ h.places (suc i) d (omega arith);
    }

    Holds-append :
        (x : A) (items : List A) (q : LockFreeQueue A)
        → Holds items q
        → length items < capacity
        → Holds (items ++ x ∷ []) (record q {
          buffer = set_item (mask capacity q.write_counter) x q.buffer;
          write_counter = u32 (q.write_counter + 1);
        })
    Holds-append x items q h l =
        let at : mask capacity q.write_counter ≡ (h.passed + length items) % capacity =
          ap (mask capacity) h.writes ∙ mod-mod_of_dvd capacity (h.passed + length items) divides in
        let inside : (h.passed + length items) % capacity < length q.buffer =
          omega (arith, mod-lt (h.passed + length items) positive, h.long) in
        record {
          passed = h.passed;
          reads = h.reads;
          writes =
              ap (λ n. u32 (n + 1)) h.writes
              ∙ (next (h.passed + length items)
                  ∙ ap (λ n. n % 2 ^ 32) (omega (arith, length-append items (x ∷ []))));
          long = length-set_item (mask capacity q.write_counter) x q.buffer ∙ h.long;
          fits = omega (arith, length-append items (x ∷ []), l);
          places = λ i d k. rw at (place i d k inside);
        }
      where
        place :
            (i : ℕ) (d : A)
            → i < length (items ++ x ∷ [])
            → (h.passed + length items) % capacity < length q.buffer
            → get_or
                (set_item ((h.passed + length items) % capacity) x q.buffer)
                ((h.passed + i) % capacity)
                d
              ≡ get_or (items ++ x ∷ []) i d
        place i d k inside = elim (Bool-cases (ltb i (length items))) [
          | inl before ↦
              let b : i < length items = ground arith in
              let w : (h.passed + i) + (length items - i) ≡ h.passed + length items = omega arith in
              get_or-set_item_other ((h.passed + length items) % capacity)
                ((h.passed + i) % capacity) x d q.buffer
                (λ e.
                  apart (h.passed + i) (length items - i) capacity positive (omega arith)
                    (omega arith) (ap (λ n. n % capacity) w ∙ e))
              ∙ (h.places i d b ∙ sym (get_or-append_left items (x ∷ []) i d b))
          | inr after ↦
              let last : i ≡ length items =
                omega (arith, length-append items (x ∷ []), k, not_below i (length items) after) in
              rw last (
                get_or-set_item ((h.passed + length items) % capacity) x d q.buffer inside
                ∙ sym (
                    get_or-append_right items (x ∷ []) (length items) d (omega arith)
                    ∙ ap (λ n. get_or (x ∷ []) n d) (zero_left (length items))))
        ]

    -- A call sees what it sees of the list, and leaves the queue with the items that it leaves there.
    record Agrees (a : Seen A × LockFreeQueue A) (b : Seen A × List A) : Type 0 where
      seen : a.0 ≡ b.0
      held : Holds b.1 a.1

    empty : (q : LockFreeQueue A) → Holds [] q → is_empty capacity q ≡ true
    empty q h = is_empty_lem [] q h

    not_empty :
        (x : A) (items : List A) (q : LockFreeQueue A)
        → Holds (x ∷ items) q
        → is_empty capacity q ≡ false
    not_empty x items q h = is_empty_lem (x ∷ items) q h ∙ ground arith

    perform-Agrees :
        (c : Call A) (items : List A) (q : LockFreeQueue A)
        → Holds items q
        → Agrees (perform capacity c q) (perform_list capacity c items)
    unfolding perform perform_list push pop peek
    perform-Agrees (append x) items q h = elim (Bool-cases (ltb (length items) capacity)) [
      | inl l ↦
          let r = room items q h (ground (arith, l)) in
          rw (l, r) (record { seen = refl; held = Holds-append x items q h (ground (arith, l)) })
      | inr l ↦
          let r = no_room items q h (not_below (length items) capacity l) in
          rw (l, r) (record { seen = refl; held = h })
    ]
    perform-Agrees (remove v) [] q h = rw (empty q h) (record { seen = refl; held = h })
    perform-Agrees (remove v) (x ∷ items) q h = rw (not_empty x items q h) (record {
      seen = ap (Seen.found true) (first x items q v h);
      held = Holds-tail x items q h;
    })
    perform-Agrees (look v) [] q h = rw (empty q h) (record { seen = refl; held = h })
    perform-Agrees (look v) (x ∷ items) q h =
        rw (not_empty x items q h)
          (record { seen = ap (Seen.found true) (first x items q v h); held = h })
    perform-Agrees measure items q h = record {
      seen = ap Seen.measured (size_lem items q h);
      held = h;
    }

    -- With a capacity that divides 2 ^ 32 and is below it, no sequence of `push`, `pop`, `peek` and `size` tells
    -- the queue from the list of the items that it holds, which takes items at its end up to the capacity;
    -- the counters may wrap any number of times.
    pub run_agrees :
        (cs : List (Call A)) (items : List A) (q : LockFreeQueue A)
        → Holds items q
        → run capacity cs q ≡ run_list capacity cs items
    unfolding run run_list
    run_agrees [] items q h = refl
    run_agrees (c ∷ cs) items q h =
        let a = perform-Agrees c items q h in
        ap (λ s. s ∷ run capacity cs (perform capacity c q).1) a.seen
        ∙ ap (λ l. (perform_list capacity c items).0 ∷ l)
            (run_agrees cs (perform_list capacity c items).1 (perform capacity c q).1 a.held)
