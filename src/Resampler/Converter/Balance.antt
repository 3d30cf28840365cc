-- ===== src/Resampler/Converter/Balance.antt =====
-- The converter takes the frames that the ratio asks for, ends, and reads inside of its input.
use android_audio_samples.Prelude.{
  ℕ, zero, suc, ◌+◌, ◌-◌, ◌*◌, ◌≤◌, ◌<◌, ◌≡◌, refl, sym, ap, subst, ◌∙◌, arith, List, [], ◌∷◌, ◌++◌,
  append_assoc, append-nil, take, length, Bool, true, false, none, some, ℤ, pos, ◌+ℤ◌, ◌-ℤ◌,
  if◌then◌else◌, if_cases,
}
use android_audio_samples.Resampler.{
  MultiChannelResampler, is_write_needed, write_frame, write_next_frame, advance_write,
  advance_read,
}
use android_audio_samples.Resampler.Delay.{IsDelayLine, window, write_frame-window}
use android_audio_samples.Resampler.Converter.{
  Upstream, SampleRateConverter, get_next_input_frame, is_input_available, Converted, convert_loop,
}
use android_audio_samples.Resampler.Converter.Input.{Available, gives, dry, available}

module _ {A : Type 0} where
  -- The frames of a window after more have come, the last one first.
  pub shift_all : ℕ → List A → List A → List A
  shift_all n [] w = w
  shift_all n (f ∷ fs) w = shift_all n fs (f ∷ take (n - 1) w)

  -- A converter between two calls, with phase `q`.
  pub record IsReady (q : ℕ) (c : SampleRateConverter A) : Type 0 where
    pub phase : c.resampler.integer_phase ≡ pos q
    pub positive : 0 < c.resampler.denominator
    pub delay : IsDelayLine c.resampler
    pub place : ℕ
    pub cursor : c.input_cursor ≡ pos place

  module _ (upstream : Upstream A) where
    open upstream use {W, pull, read_frame}

    -- Where the loop leads: the frames of the output, those taken, and a converter that is ready again.
    pub record Converts (q left : ℕ) (out : List A) (c : SampleRateConverter A)
        (t : Converted upstream) : Type 0 where
      pub more : List A
      pub taken : List A
      pub converter : SampleRateConverter A
      pub world : W
      pub phase : ℕ
      pub returned : t ≡ Converted.converted (out ++ more) converter world
      pub few : length more ≤ left
      pub balance :
          phase + length taken * c.resampler.denominator ≡ q + length more * c.resampler.numerator
      pub shifts :
          window converter.resampler ≡ shift_all c.resampler.num_taps taken (window c.resampler)
      pub ready : IsReady phase converter

    ends_at :
        (q left : ℕ) (out : List A) (c c1 : SampleRateConverter A) (w : W)
        → c1.resampler ≡ c.resampler
        → IsReady q c1
        → Converts q left out c (Converted.converted out c1 w)
    unfolding shift_all
    ends_at q left out c c1 w e r = record {
      more = [];
      taken = [];
      converter = c1;
      world = w;
      phase = q;
      returned = ap (λ l. Converted.converted l c1 w) (sym (append-nil out));
      few = omega arith;
      balance = omega arith;
      shifts = ap window e;
      ready = r;
    }

    needed :
        (c : SampleRateConverter A) (q : ℕ)
        → c.resampler.integer_phase ≡ pos q
        → is_write_needed c.resampler ≡ true
        → c.resampler.denominator ≤ q
    unfolding is_write_needed
    needed c q e h = ground (arith, e, h)

    -- The same resampler, and a place in the input.
    moved :
        (q i : ℕ) (c c1 : SampleRateConverter A)
        → IsReady q c
        → c1.resampler ≡ c.resampler
        → c1.input_cursor ≡ pos i
        → IsReady q c1
    moved q i c c1 r e k = record {
      phase = ap (λ m. m.integer_phase) e ∙ r.phase;
      positive = subst (λ m. 0 < m.denominator) (sym e) r.positive;
      delay = subst IsDelayLine (sym e) r.delay;
      place = i;
      cursor = k;
    }

    module _ (q : ℕ) (c : SampleRateConverter A) (r : IsReady q c) (f : A) (next : ℕ)
        (input : List A) (calls : ℤ) where
      abbrev m : MultiChannelResampler A
      m = c.resampler

      -- the converter after a write
      abbrev wrote : SampleRateConverter A
      wrote = record {
        resampler = write_next_frame f m;
        input_cursor = pos next;
        input = input;
        input_call_count = calls;
      }

      less : m.denominator ≤ q → m.integer_phase -ℤ pos m.denominator ≡ pos (q - m.denominator)
      unfolding ◌-ℤ◌
      less h = ground (arith, r.phase)

      wrote-IsReady : m.denominator ≤ q → IsReady (q - m.denominator) wrote
      unfolding write_next_frame advance_write write_frame
      wrote-IsReady h =
          let (seen, d) = write_frame-window f m r.delay in
          record {
            phase = less h;
            positive = r.positive;
            delay = record { half = d.half; long = d.long; twice = d.twice; inside = d.inside };
            place = next;
            cursor = refl;
          }

      after_write :
          (left : ℕ) (out : List A) (t : Converted upstream)
          → m.denominator ≤ q
          → Converts (q - m.denominator) left out wrote t
          → Converts q left out c t
      unfolding write_next_frame advance_write write_frame shift_all
      after_write left out t h d =
          let (seen, line) = write_frame-window f m r.delay in
          record {
            more = d.more;
            taken = f ∷ d.taken;
            converter = d.converter;
            world = d.world;
            phase = d.phase;
            returned = d.returned;
            few = d.few;
            balance = omega (arith, d.balance, h);
            shifts = d.shifts ∙ ap (shift_all m.num_taps d.taken) seen;
            ready = d.ready;
          }

      -- the converter after a read
      abbrev got : SampleRateConverter A
      got = record c { resampler = advance_read m }

      got-IsReady : IsReady (q + m.numerator) got
      unfolding advance_read ◌+ℤ◌
      got-IsReady = record {
        phase = ground (arith, r.phase);
        positive = r.positive;
        delay = record {
          half = r.delay.half;
          long = r.delay.long;
          twice = r.delay.twice;
          inside = r.delay.inside;
        };
        place = r.place;
        cursor = r.cursor;
      }

      after_read :
          (left : ℕ) (out : List A) (frame : A) (t : Converted upstream)
          → Converts (q + m.numerator) left (out ++ frame ∷ []) got t
          → Converts q (suc left) out c t
      unfolding advance_read
      after_read left out frame t d = record {
        more = frame ∷ d.more;
        taken = d.taken;
        converter = d.converter;
        world = d.world;
        phase = d.phase;
        returned =
            d.returned
            ∙ ap (λ l. Converted.converted l d.converter d.world)
                (append_assoc out (frame ∷ []) d.more);
        few = omega (arith, d.few);
        balance = omega (arith, d.balance);
        shifts = d.shifts;
        ready = d.ready;
      }

    -- The loop with less fuel.
    abbrev Continues : ℕ → Type 0
    Continues fuel =
        (left q : ℕ) (out : List A) (c : SampleRateConverter A) (w : W)
        → IsReady q c
        → q + left * suc c.resampler.numerator < fuel
        → Converts q left out c (convert_loop upstream fuel left out c w)

    written :
        (fuel left q : ℕ) (out : List A) (c : SampleRateConverter A)
        → IsReady q c
        → q + suc left * suc c.resampler.numerator < suc fuel
        → c.resampler.denominator ≤ q
        → Continues fuel
        → (t : Bool × SampleRateConverter A × W) → Available upstream c t
        → Converts q (suc left) out c (
            if t.0
            then (elim (get_next_input_frame t.1) [
              | none ↦ Converted.reads_outside
              | some (f, c2) ↦
                  convert_loop upstream fuel
                    (suc left)
                    out
                    (record c2 { resampler = write_next_frame f c2.resampler })
                    t.2
            ])
            else Converted.converted out t.1 t.2)
    unfolding write_next_frame advance_write write_frame
    written fuel left q out c r l h k (true, c1, w1) (gives f next input calls e) = rw e (
        after_write q c r f next input calls (suc left) out _ h (
          k (suc left) (q - c.resampler.denominator) out (wrote q c r f next input calls) w1
            (wrote-IsReady q c r f next input calls h) (omega (arith, l, h, r.positive))))
    written fuel left q out c r l h k (false, c1, w1) (dry e z) =
        ends_at q (suc left) out c c1 w1 e (moved q 0 c c1 r e z)

    pub loop-Converts : (fuel : ℕ) → Continues fuel
    unfolding convert_loop advance_read
    loop-Converts zero left q out c w r l = absurd (omega arith)
    loop-Converts (suc fuel) zero q out c w r l = ends_at q 0 out c c w refl r
    loop-Converts (suc fuel) (suc left) q out c w r l =
        if_cases (Converts q (suc left) out c) (is_write_needed c.resampler)
          (λ h.
            written fuel left q out c r l (needed c q r.phase h) (loop-Converts fuel)
              (is_input_available upstream c w) (available upstream c w r.place r.cursor))
          (λ h.
            after_read q c r (read_frame c.resampler w).0 0 [] (pos 0) left out
              (read_frame c.resampler w).0 _
              (loop-Converts fuel left (q + c.resampler.numerator) _ _ _
                (got-IsReady q c r (read_frame c.resampler w).0 0 [] (pos 0)) (omega (arith, l))))
