-- ===== src/Quirks/Child.antt =====
-- The child stream's builder: what a work-around may change, and that one round of them is enough.
use android_audio_samples.Prelude.{
  ◌≡◌, ap, ap₂, ◌&&◌, ◌==◌, not, ◌-◌, arith, if◌then◌else◌, ◌⊎◌, inl, inr, Bool-cases, ◌∙◌, eqb_ℤ,
  Bool, true, false, ◌||◌, ℤ, pos, ◌≤ℤ◌, ◌-ℤ◌, ◌*◌, ◌+◌, ◌≤◌,
}
use android_audio_samples.Definitions.{AudioFormat, AudioApi, InputPreset, Direction}
use android_audio_samples.StreamBase.{
  AudioStreamBase, Platform, unspecified, is_aaudio_recommended, will_use_aaudio, is_low_latency,
  is_input, converts_rate,
}
use android_audio_samples.Quirks.{
  DeviceQuirks, avoids_callback_size, frees_sample_rate, forces_i16_input, forces_i16_output,
  uses_mono, uses_stereo, convert_callback, convert_rate, convert_format, convert_channels,
  is_conversion_needed, is_mono_mmap_actually_stereo, mmap_possible, is_aaudio_mmap_possible,
  common, exynos, qualcomm, StreamSizes, bottom_margin, top_margin, clip_buffer_size,
}

conjuncts : (a b c d e f : Bool) → (a && b && c && d && e && f) ≡ true → (e ≡ true) × (b ≡ true)
conjuncts a b c d e f = ground arith

second : (a b c d e f g : Bool) → (a && b && c && d && e && f && g) ≡ true → b ≡ true
second a b c d e f g = ground arith

fourth : (a b c d e f : Bool) → (a && b && c && d && e && f) ≡ true → d ≡ true
fourth a b c d e f = ground arith

module _ (p : Platform) (q : DeviceQuirks) (b : AudioStreamBase) where
  -- Where no conversion is needed the child's builder is left as it was.
  pub no_conversion :
      (child : AudioStreamBase)
      → (is_conversion_needed p q b child).0 ≡ false
      → (is_conversion_needed p q b child).1 ≡ child
  unfolding is_conversion_needed convert_callback convert_rate convert_format convert_channels
  no_conversion child h = ground arith

  abbrev pub child_builder : AudioStreamBase
  child_builder = (is_conversion_needed p q b b).1

  -- the child's builder, field by field
  record ChildOf (c : AudioStreamBase) : Type 0 where
    same_callback : c.data_callback ≡ b.data_callback
    same_api : c.audio_api ≡ b.audio_api
    same_direction : c.direction ≡ b.direction
    same_mode : c.performance_mode ≡ b.performance_mode
    same_preset : c.input_preset ≡ b.input_preset
    same_quality : c.sample_rate_conversion_quality ≡ b.sample_rate_conversion_quality
    same_formats : c.format_conversion_allowed ≡ b.format_conversion_allowed
    same_channels : c.channel_conversion_allowed ≡ b.channel_conversion_allowed
    frames :
        c.frames_per_callback
        ≡ (if avoids_callback_size p q b then unspecified else b.frames_per_callback)
    rate : c.sample_rate ≡ (if frees_sample_rate p q b then unspecified else b.sample_rate)
    form :
        c.format
        ≡ (if forces_i16_input p q b || forces_i16_output p q b then AudioFormat.i16 else b.format)
    channels :
        c.channel_count
        ≡ (if uses_mono p q b then pos 1 else if uses_stereo p q b then pos 2 else b.channel_count)

  child_builder-ChildOf : ChildOf child_builder
  unfolding is_conversion_needed convert_callback convert_rate convert_format convert_channels
  child_builder-ChildOf = ground arith

  module _ (c : AudioStreamBase) (h : ChildOf c) where
    same_will_use : will_use_aaudio p c ≡ will_use_aaudio p b
    unfolding will_use_aaudio
    same_will_use =
        ap
          (λ (a : AudioApi). elim a [
            | AudioApi.aaudio ↦ p.aaudio_supported
            | AudioApi.unspecified ↦ is_aaudio_recommended p
            | AudioApi.open_sles ↦ false
          ])
          h.same_api

    settled_callback : avoids_callback_size p q c ≡ false
    unfolding avoids_callback_size
    settled_callback = ground (arith, same_will_use)

    settled_rate : frees_sample_rate p q c ≡ false
    unfolding frees_sample_rate
    settled_rate = ground (arith)

    settled_input : forces_i16_input p q c ≡ false
    unfolding forces_i16_input
    settled_input = ground (arith, same_will_use)

    settled_output : forces_i16_output p q c ≡ false
    unfolding forces_i16_output
    settled_output = ground (arith)

    settled_mono : uses_mono p q c ≡ false
    unfolding uses_mono uses_stereo
    settled_mono = ground (arith, same_will_use)

    -- `uses_stereo` and `uses_mono` exclude one another
    uses_stereo-true :
        (x : AudioStreamBase)
        → uses_stereo p q x ≡ true
        → (will_use_aaudio p x ≡ true) × (eqb_ℤ x.channel_count (pos 1) ≡ true)
    unfolding uses_stereo
    uses_stereo-true x t =
        conjuncts p.workarounds_enabled (eqb_ℤ x.channel_count (pos 1)) (is_input x)
          (is_mono_mmap_actually_stereo q) (will_use_aaudio p x) (is_aaudio_mmap_possible q x) t

    uses_mono-true : (x : AudioStreamBase) → uses_mono p q x ≡ true → will_use_aaudio p x ≡ false
    unfolding uses_mono
    uses_mono-true x t = ground arith

    same_mmap : c.channel_count ≡ b.channel_count → mmap_possible c ≡ mmap_possible b
    unfolding frees_sample_rate
    same_mmap e = ground arith

    same_possible :
        (d : DeviceQuirks)
        → c.channel_count ≡ b.channel_count
        → is_aaudio_mmap_possible d c ≡ is_aaudio_mmap_possible d b
    same_possible common e = same_mmap e
    same_possible (exynos _ _ _ _) e =
        ap₂
          (λ (m : Bool) (i : InputPreset).
            m && not (elim i [ InputPreset.camcorder ↦ true | _ ↦ false ]))
          (same_mmap e) h.same_preset
    same_possible (qualcomm _) e = same_mmap e

    same_stereo : c.channel_count ≡ b.channel_count → uses_stereo p q c ≡ uses_stereo p q b
    unfolding uses_stereo
    same_stereo e = λ i.
        p.workarounds_enabled
        && eqb_ℤ (e i) (pos 1)
        && (elim (h.same_direction i) [ Direction.input ↦ true | _ ↦ false ])
        && is_mono_mmap_actually_stereo q
        && same_will_use i
        && same_possible q e i

    settled_stereo : uses_stereo p q c ≡ false
    settled_stereo = elim (Bool-cases (uses_stereo p q c)) [
      | inr f ↦ f
      | inl t ↦ elim (Bool-cases (uses_mono p q b)) [
        | inl mono ↦ cc ((uses_stereo-true c t).0, uses_mono-true b mono, same_will_use)
        | inr m ↦ elim (Bool-cases (uses_stereo p q b)) [
          | inl stereo ↦ ground (arith, uses_stereo-true c t)
          | inr f ↦ same_stereo (ground arith) ∙ f
        ]
      ]
    ]

module _ (p : Platform) (q : DeviceQuirks) (b c : AudioStreamBase) (h : ChildOf p q b c) where
  leave_format : (c.format ≡ b.format) ⊎ (b.format_conversion_allowed ≡ true)
  unfolding forces_i16_input forces_i16_output
  leave_format = ground arith

  leave_rate : (c.sample_rate ≡ b.sample_rate) ⊎ (converts_rate b ≡ true)
  unfolding frees_sample_rate
  leave_rate = ground arith

  uses_mono-allowed : uses_mono p q b ≡ true → b.channel_conversion_allowed ≡ true
  unfolding uses_mono
  uses_mono-allowed t =
      second p.workarounds_enabled b.channel_conversion_allowed (eqb_ℤ b.channel_count (pos 2))
        (is_input b) (is_low_latency b) (not (will_use_aaudio p b)) (p.sdk_version == 26) t

  uses_stereo-quirk : uses_stereo p q b ≡ true → is_mono_mmap_actually_stereo q ≡ true
  unfolding uses_stereo
  uses_stereo-quirk t =
      fourth p.workarounds_enabled (eqb_ℤ b.channel_count (pos 1)) (is_input b)
        (is_mono_mmap_actually_stereo q) (will_use_aaudio p b) (is_aaudio_mmap_possible q b) t

  leave_channels :
      (c.channel_count ≡ b.channel_count)
      ⊎ (b.channel_conversion_allowed ≡ true)
      ⊎ (is_mono_mmap_actually_stereo q ≡ true)
  leave_channels = elim (Bool-cases (uses_mono p q b)) [
    | inl mono ↦ inr (inl (uses_mono-allowed mono))
    | inr m ↦ elim (Bool-cases (uses_stereo p q b)) [
      | inl stereo ↦ inr (inr (uses_stereo-quirk stereo))
      | inr f ↦ inl (ground arith)
    ]
  ]

-- One round of work-arounds is enough: the child's builder needs no conversion itself.
pub child_settled :
    (p : Platform) (q : DeviceQuirks) (b : AudioStreamBase)
    → let child = (is_conversion_needed p q b b).1 in
      (is_conversion_needed p q child child).0 ≡ false
unfolding is_conversion_needed
child_settled p q b =
    let h : ChildOf p q b (is_conversion_needed p q b b).1 = child_builder-ChildOf p q b in
    rw (
      settled_callback p q b _ h,
      settled_rate p q b _ h,
      settled_input p q b _ h,
      settled_output p q b _ h,
      settled_mono p q b _ h,
      settled_stereo p q b _ h,
    )

-- What the application asked for is given up only with its leave: a format that differs in the child
-- means that format conversion is allowed, a sample rate that a conversion quality is chosen, and a
-- channel count that channel conversion is allowed or that the device runs mono streams as stereo.
pub child_leave :
    (p : Platform) (q : DeviceQuirks) (b : AudioStreamBase)
    → let child = (is_conversion_needed p q b b).1 in
      ((child.format ≡ b.format) ⊎ (b.format_conversion_allowed ≡ true))
      × ((child.sample_rate ≡ b.sample_rate) ⊎ (converts_rate b ≡ true))
      × ((child.channel_count ≡ b.channel_count)
          ⊎ (b.channel_conversion_allowed ≡ true)
          ⊎ (is_mono_mmap_actually_stereo q ≡ true))
unfolding is_conversion_needed
child_leave p q b =
    let h : ChildOf p q b (is_conversion_needed p q b b).1 = child_builder-ChildOf p q b in
    (leave_format p q b _ h, leave_rate p q b _ h, leave_channels p q b _ h)

-- With work-arounds on, and a buffer that holds at least the two margins, the size set lies between the
-- margins. It is the size asked for, or the margin that this lies beyond.
pub clip_buffer_size_bounds :
    (p : Platform) (q : DeviceQuirks) (s : StreamSizes) (n : ℤ)
    → p.workarounds_enabled ≡ true
    → (bottom_margin q s + top_margin q s) * s.frames_per_burst ≤ s.capacity
    → let low = bottom_margin q s * s.frames_per_burst in
      let high = s.capacity - top_margin q s * s.frames_per_burst in
      let size = clip_buffer_size p q s n in
      (pos low ≤ℤ size)
      × (size ≤ℤ pos high)
      × ((size ≡ n) ⊎ ((n ≤ℤ pos low) × (size ≡ pos low)) ⊎ ((pos high ≤ℤ n) × (size ≡ pos high)))
unfolding clip_buffer_size ◌-ℤ◌
clip_buffer_size_bounds p q s n w h = grind arith
