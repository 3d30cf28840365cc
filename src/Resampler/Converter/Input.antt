-- ===== src/Resampler/Converter/Input.antt =====
-- A look for the next frame of the input.
use android_audio_samples.Prelude.{
  ℕ, suc, ◌<◌, ◌≡◌, refl, sym, ap, ◌∙◌, arith, List, [], ◌∷◌, drop, length, length-drop, Bool, true,
  false, ltb, lt→ltb, some, ℤ, pos, ltb_ℤ, if_cases,
}
use android_audio_samples.Resampler.Converter.{
  Upstream, SampleRateConverter, get_next_input_frame, frame_at, first_of, is_input_available,
}

module _ {A : Type 0} where
  module _ (upstream : Upstream A) where
    open upstream use {W, pull, read_frame}

    -- A look for input leads to a frame, or the input is dry.
    pub data Available (c : SampleRateConverter A) : Bool × SampleRateConverter A × W → Type 0 where
      gives :
          {c1 : SampleRateConverter A} {w1 : W} (f : A) (next : ℕ) (input : List A) (calls : ℤ)
          → get_next_input_frame c1
            ≡ some (
              f,
              record {
                resampler = c.resampler;
                input_cursor = pos next;
                input = input;
                input_call_count = calls;
              },
            )
          → Available c (true, c1, w1)
      dry :
          {c1 : SampleRateConverter A} {w1 : W}
          → c1.resampler ≡ c.resampler
          → c1.input_cursor ≡ pos 0
          → Available c (false, c1, w1)

    inside :
        (c : SampleRateConverter A) (w : W) (i : ℕ) (rest : List A)
        → c.input_cursor ≡ pos i
        → i < length c.input
        → rest ≡ drop i c.input
        → Available c (true, c, w)
    unfolding get_next_input_frame frame_at first_of
    inside c w i [] e h r = absurd (omega (arith, ap length r, length-drop i c.input))
    inside c w i (f ∷ fs) e h r =
        gives f (suc i) c.input c.input_call_count
          (ap (λ k. frame_at k c) e ∙ ap (λ l. first_of l i c) (sym r))

    pulled :
        (c : SampleRateConverter A) (calls : ℤ) (frames : List A) (w : W)
        → Available c (
          ltb 0 (length frames),
          record c { input_cursor = pos 0; input = frames; input_call_count = calls },
          w,
        )
    unfolding get_next_input_frame frame_at first_of
    pulled c calls [] w = dry refl refl
    pulled c calls (f ∷ fs) w =
        rw (lt→ltb 0 (suc (length fs)) (omega arith)) (gives f 1 (f ∷ fs) calls refl)

    pub available :
        (c : SampleRateConverter A) (w : W) (i : ℕ)
        → c.input_cursor ≡ pos i
        → Available c (is_input_available upstream c w)
    unfolding is_input_available
    available c w i e =
        if_cases (Available c) (ltb_ℤ c.input_cursor (pos (length c.input)))
          (λ h. inside c w i (drop i c.input) e (ground (arith, e, h)) refl) (λ h. pulled c _ _ _)
