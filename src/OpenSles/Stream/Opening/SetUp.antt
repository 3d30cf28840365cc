-- ===== src/OpenSles/Stream/Opening/SetUp.antt =====
-- What the creation of the player or recorder leaves.
use android_audio_samples.Prelude.{
  ℕ, Bool, true, false, not, List, [], ◌∷◌, replicate, some, none, ℤ, pos, pos_part, ◌<ℤ◌, ◌≡◌,
  refl, ◌∙◌, arith, if◌then◌else◌,
}
use android_audio_samples.Definitions.{Result, StreamState, is_ok}
use android_audio_samples.StreamBase.{Platform, is_input}
use android_audio_samples.OpenSles.Stream.{Stream, using_fifo}
use android_audio_samples.OpenSles.Stream.Formats.{pcm_format}
use android_audio_samples.OpenSles.Stream.Transfer.{allocate_fifo}
use android_audio_samples.OpenSles.Stream.Configuring.{
  DefaultStreamValues, OpenSlEs, configure_buffer_sizes, configure_output, configure_input,
  update_stream_parameters, register_buffer_queue_callback,
}
use android_audio_samples.OpenSles.Stream.Opening.{set_up}

abbrev has_fifo : Stream → Bool
has_fifo s = elim s.fifo_buffer [ some f ↦ true | none ↦ false ]

-- A stream that is ready for requests: it has its three interfaces, two buffers of the size of a callback,
-- and a FIFO if there is no data callback.
pub record IsOpened (s : Stream) : Type 0 where
  pub ready : s.state ≡ StreamState.opened
  pub control : s.control_interface ≡ true
  pub queue : s.queue_interface ≡ true
  pub object : s.object_interface ≡ true
  pub positive : pos 0 <ℤ s.bytes_per_callback
  pub buffers :
      s.callback_buffer
      ≡ replicate (pos_part s.bytes_per_callback) 0
        ∷ replicate (pos_part s.bytes_per_callback) 0
        ∷ []
  pub fifo : using_fifo s ≡ true → has_fifo s ≡ true

module _ (p : Platform) (defaults : DefaultStreamValues) where
  record IsSized (s : Stream) (t : Result × Stream) : Type 0 where
    same_state : t.1.state ≡ s.state
    same_control : t.1.control_interface ≡ s.control_interface
    same_queue : t.1.queue_interface ≡ s.queue_interface
    same_object : t.1.object_interface ≡ s.object_interface
    positive : is_ok t.0 ≡ true → pos 0 <ℤ t.1.bytes_per_callback
    buffers :
        is_ok t.0 ≡ true
        → t.1.callback_buffer
          ≡ replicate (pos_part t.1.bytes_per_callback) 0
            ∷ replicate (pos_part t.1.bytes_per_callback) 0
            ∷ []

  configure_buffer_sizes-IsSized :
      (rate : ℤ) (s : Stream) → IsSized s (configure_buffer_sizes p defaults rate s)
  unfolding configure_buffer_sizes
  configure_buffer_sizes-IsSized rate s = record {
    same_state = ground arith;
    same_control = ground arith;
    same_queue = ground arith;
    same_object = ground arith;
    positive = ground arith;
    buffers = ground arith;
  }

module _ (p : Platform) (defaults : DefaultStreamValues) (sles : OpenSlEs) where
  open sles use {W, create_object, get_configuration, realize_object, get_control}

  -- What the creation leaves: an opened stream, or one that is no further than it was.
  pub record IsSetUp (s : Stream) (t : Bool × Stream × W) : Type 0 where
    pub done : t.0 ≡ true → IsOpened t.1
    pub failed : t.0 ≡ false → t.1.state ≡ s.state

  allocate_fifo-IsOpened :
      (heap : List ℕ) (s : Stream)
      → s.control_interface ≡ true
      → s.queue_interface ≡ true
      → s.object_interface ≡ true
      → pos 0 <ℤ s.bytes_per_callback
      → s.callback_buffer
        ≡ replicate (pos_part s.bytes_per_callback) 0
          ∷ replicate (pos_part s.bytes_per_callback) 0
          ∷ []
      → IsOpened (record (allocate_fifo heap s) { state = StreamState.opened })
  unfolding allocate_fifo
  allocate_fifo-IsOpened heap s c q o b l = record {
    ready = refl;
    control = ground arith;
    queue = ground arith;
    object = ground arith;
    positive = ground arith;
    buffers = ground arith;
    fifo = ground arith;
  }

  record IsRegistered (s : Stream) (t : Bool × Stream × W) : Type 0 where
    same_state : t.1.state ≡ s.state
    same_control : t.1.control_interface ≡ s.control_interface
    same_object : t.1.object_interface ≡ s.object_interface
    queue : t.0 ≡ true → t.1.queue_interface ≡ true

  register-IsRegistered :
      (s : Stream) (w : W) → IsRegistered s (register_buffer_queue_callback p sles s w)
  unfolding register_buffer_queue_callback
  register-IsRegistered s w = record {
    same_state = ground arith;
    same_control = ground arith;
    same_object = ground arith;
    queue = ground arith;
  }

  stops_here : (s s' : Stream) (w' : W) → s'.state ≡ s.state → IsSetUp s (false, s', w')
  stops_here s s' w' e = record { done = λ t. ground arith; failed = λ f. e }

  unless :
      {s : Stream} (b : Bool) {x y : Bool × Stream × W}
      → IsSetUp s x
      → (b ≡ true → IsSetUp s y)
      → IsSetUp s (if not b then x else y)
  unless true h k = k refl
  unless false h k = h

  pub set_up-IsSetUp :
      (heap : List ℕ) (s : Stream) (w : W) → IsSetUp s (set_up p defaults sles heap s w)
  unfolding set_up
  set_up-IsSetUp heap s w =
      let (created, w1) = create_object (pcm_format p s.base) w in
      let s1 = record s { object_interface = true } in
      let (found, w2) = get_configuration w1 in
      let (configured, b2, w3) =
        if found
        then (if is_input s.base
            then configure_input p sles s.base w2
            else configure_output p sles s.base w2)
        else (true, s.base, w2) in
      let s2 : Stream = record s1 { base = b2 } in
      let (realized, w4) = realize_object w3 in
      let (has_control, w5) = get_control w4 in
      let s3 : Stream = record s2 { control_interface = true } in
      let (registered, s4, w6) = register_buffer_queue_callback p sles s3 w5 in
      let (updated, b5, w7) = update_stream_parameters p sles found s4.base w6 in
      let s5 : Stream = record s4 { base = b5 } in
      let (result, s6) = configure_buffer_sizes p defaults s5.base.sample_rate s5 in
      let r = register-IsRegistered s3 w5 in
      let z = configure_buffer_sizes-IsSized p defaults s5.base.sample_rate s5 in
      unless created (stops_here s s w1 refl) (λ a.
        unless configured (stops_here s s2 w3 refl) (λ b.
          unless realized (stops_here s s2 w4 refl) (λ c.
            unless has_control (stops_here s s2 w5 refl) (λ d.
              unless registered (stops_here s s4 w6 r.same_state) (λ e.
                unless updated (stops_here s s5 w7 r.same_state) (λ f.
                  unless (is_ok result) (stops_here s s6 w7 (z.same_state ∙ r.same_state)) (λ g.
                    record {
                      done = λ t.
                          allocate_fifo-IsOpened heap s6 (z.same_control ∙ r.same_control)
                            (z.same_queue ∙ r.queue e) (z.same_object ∙ r.same_object)
                            (z.positive g) (z.buffers g);
                      failed = λ t. ground arith;
                    })))))))
