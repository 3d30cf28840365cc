-- ===== src/LatencyTuner/Laws.antt =====
-- What a call of `tune` may do to the stream and to the tuner.
use android_audio_samples.Prelude.{
  ℕ, zero, suc, ◌+◌, ◌-◌, ◌<◌, ◌≡◌, refl, ◌∙◌, ap, arith, ◌⊎◌, inl, inr, ℤ, pos, ◌≤ℤ◌, ◌-ℤ◌, ◌≢◌,
  eqb_ℤ, ltb_ℤ, wrap32, if-elim,
}
use android_audio_samples.Definitions.{Result}
use android_audio_samples.LatencyTuner.{
  AudioStream, State, Tuner, idle_count, is_unsupported, reset, tune, requested_size,
  process_requests, count_down, grow, ResultWithValue, error, value, is_active, settle,
}

module _ (stream : AudioStream) where
  open stream use {S, set_buffer_size, x_run_count}

  pub requested_size-le : (t : Tuner) (s : S) → requested_size stream t s ≤ℤ t.max_buffer_size
  unfolding requested_size
  requested_size-le t s = ground arith

  -- A tuner that found tuning unsupported stays so, and leaves the stream alone.
  pub tune_unsupported :
      (t : Tuner) (s : S)
      → t.state ≡ State.unsupported
      → tune stream t s ≡ (Result.error_unimplemented, t, s)
  unfolding tune process_requests
  tune_unsupported t s h = ground arith

  -- `tune` answers `ErrorUnimplemented` exactly when it leaves the tuner unsupported, and `OK`
  -- otherwise, whatever the stream returns.
  pub tune_result :
      (t : Tuner) (s : S)
      → ((tune stream t s).0 ≡ Result.error_unimplemented)
          × ((tune stream t s).1.state ≡ State.unsupported)
        ⊎ ((tune stream t s).0 ≡ Result.ok) × ((tune stream t s).1.state ≢ State.unsupported)
  unfolding tune process_requests count_down grow settle reset
  tune_result t s = ground arith

  limits_kept :
      (t : Tuner) (s : S)
      → let t2 = count_down stream (process_requests stream t s).0 in
        (t2.max_buffer_size ≡ t.max_buffer_size)
  unfolding count_down process_requests reset
  limits_kept t s = ground arith

  -- Whatever a stream keeps when its size is set to the tuner's minimum, or to anything up to its
  -- maximum, it keeps when it is tuned: `tune` makes no other change to the stream.
  pub tune_requests {ℓ} :
      (P : S → Type ℓ) (t : Tuner) (s : S)
      → ((size : ℤ) (u : S)
          → (size ≡ t.minimum_buffer_size) ⊎ (size ≤ℤ t.max_buffer_size)
          → P u
          → P (set_buffer_size size u).1)
      → P s
      → P (tune stream t s).2
  unfolding tune
  tune_requests P t s keep p =
      if-elim (λ (r : Result × Tuner × S). P r.2) (is_unsupported t.state) p
        (if-elim (λ (r : Tuner × S × Result). P r.1) (is_active t2.state) (grown (x_run_count s1))
          processed)
    where
      s1 : S
      s1 = (process_requests stream t s).1

      t2 : Tuner
      t2 = count_down stream (process_requests stream t s).0

      processed : P s1
      processed =
          unfold process_requests reset in
          if-elim (λ (r : Tuner × S). P r.1) (eqb_ℤ t.trigger_requests t.trigger_responses) p
            (keep t.minimum_buffer_size s (inl refl) p)

      size_fits : requested_size stream t2 s1 ≤ℤ t.max_buffer_size
      size_fits = ground (arith, requested_size-le t2 s1, limits_kept t s)

      grown : (answer : ResultWithValue) → P (grow stream t2 s1 answer).1
      grown (error e) = unfold grow in processed
      grown (value x_runs) =
          unfold grow in
          if-elim (λ (r : Tuner × S × Result). P r.1)
            (ltb_ℤ (pos 0) (wrap32 (x_runs -ℤ t2.previous_x_runs)))
            (keep (requested_size stream t2 s1) s1 (inr size_fits) processed) processed

  tune_idle :
      (t : Tuner) (s : S) (k : ℕ)
      → t.state ≡ State.idle
      → t.trigger_requests ≡ t.trigger_responses
      → t.idle_count_down ≡ pos (suc (suc k))
      → tune stream t s ≡ (Result.ok, record t { idle_count_down = pos (suc k) }, s)
  unfolding tune process_requests count_down ◌-ℤ◌
  tune_idle t s k hi hr hc = ground arith

  unfoldable pub tune_times : ℕ → Tuner → S → Tuner × S
  tune_times zero t s = (t, s)
  tune_times (suc n) t s = let (r, t', s') = tune stream t s in tune_times n t' s'

  idle_run :
      (n k : ℕ) (t : Tuner) (s : S)
      → t.state ≡ State.idle
      → t.trigger_requests ≡ t.trigger_responses
      → t.idle_count_down ≡ pos (suc (k + n))
      → tune_times n t s ≡ (record t { idle_count_down = pos (suc k) }, s)
  unfolding tune_times
  idle_run zero k t s hi hr hc = ground arith
  idle_run (suc n) k t s hi hr hc =
      let e : suc (k + suc n) ≡ suc (suc (k + n)) = omega arith in
      rw (tune_idle t s (k + n) hi hr (hc ∙ ap pos e))
        (idle_run n k (record t { idle_count_down = pos (suc (k + n)) }) s hi hr refl)

  -- In the seven calls of `tune` after a reset, with no new request to reset, the tuner stays idle,
  -- counts down by one a call, and leaves the stream alone.
  pub tune_grace :
      (n : ℕ) (t : Tuner) (s : S)
      → n < 8
      → t.state ≡ State.idle
      → t.trigger_requests ≡ t.trigger_responses
      → t.idle_count_down ≡ idle_count
      → tune_times n t s ≡ (record t { idle_count_down = pos (8 - n) }, s)
  tune_grace n t s l hi hr hc =
      let e : 8 ≡ suc (7 - n + n) = omega arith in
      let left : suc (7 - n) ≡ 8 - n = omega arith in
      idle_run n (7 - n) t s hi hr (hc ∙ ap pos e)
      ∙ ap (λ m. (record t { idle_count_down = pos m }, s)) left
