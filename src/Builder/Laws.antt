-- ===== src/Builder/Laws.antt =====
-- How deep `openStream` goes, and what becomes of the MMAP policy.
use android_audio_samples.Prelude.{
  ℕ, zero, suc, ◌≡◌, refl, sym, subst, true, false, Bool, ◌&&◌, not, Bool-cases, if◌then◌else◌,
  if-elim, Option, some, none, inl, inr, Returned, blocks, returns,
}
use android_audio_samples.Definitions.{is_ok}
use android_audio_samples.StreamBase.{AudioStreamBase, Platform, is_valid_config, is_compatible}
use android_audio_samples.Quirks.{DeviceQuirks, is_conversion_needed, is_mmap_safe}
use android_audio_samples.Quirks.Child.{child_settled}
use android_audio_samples.Builder.{
  System, Device, Policy, is_policy_enabled, is_mmap_enabled, set_mmap_enabled, AudioStream,
  untouched, null, stream, info_of, finish, convert, use_child, open_stream, Reply,
}

module _ (system : System) (p : Platform) (q : DeviceQuirks) where
  open system use {W, open_backend}

  -- `openStream` where no conversion is needed
  settled : AudioStreamBase → Device W → Reply system p q
  settled b d =
      if is_ok (is_valid_config b)
      then finish system p q b (is_conversion_needed p q b b).1 none d
      else (is_valid_config b, untouched, d)

  open_stream-settled :
      (n : ℕ) (b : AudioStreamBase) (d : Device W)
      → (is_conversion_needed p q b b).0 ≡ false
      → open_stream system p q (suc n) b d ≡ some (settled b d)
  unfolding open_stream settled
  open_stream-settled n b d e = elim (Bool-cases (is_ok (is_valid_config b))) [
    | inl v ↦ rw (v, e) refl
    | inr v ↦ rw v refl
  ]

  -- A stream is opened at most one level below the one asked for: two levels of fuel are enough, and
  -- more give the same reply.
  pub open_stream-enough :
      (n : ℕ) (b : AudioStreamBase) (d : Device W)
      → (reply : Reply system p q) × (open_stream system p q 2 b d ≡ some reply)
        × (open_stream system p q (suc (suc n)) b d ≡ some reply)
  unfolding open_stream
  open_stream-enough n b d =
      let child = (is_conversion_needed p q b b).1 in
      let below = open_stream-settled zero child d (child_settled p q b) in
      let deeper = open_stream-settled n child d (child_settled p q b) in
      elim (Bool-cases (is_ok (is_valid_config b))) [
        | inr v ↦ ((is_valid_config b, untouched, d), rw v refl, rw v refl)
        | inl v ↦ elim (Bool-cases (is_conversion_needed p q b b).0) [
          | inl e ↦ (
            use_child system p q b child (settled child d),
            rw (v, e, below) refl,
            rw (v, e, deeper) refl,
          )
          | inr e ↦ (finish system p q b child none d, rw (v, e) refl, rw (v, e) refl)
        ]
      ]

abbrev pub after_child :
    (system : System) (p : Platform) (q : DeviceQuirks)
    → AudioStreamBase
    → AudioStreamBase
    → Option (Reply system p q)
    → Option (Reply system p q)
after_child system p q b child opened = elim opened [
  | some reply ↦ some (use_child system p q b child reply)
  | none ↦ none
]

-- What becomes of a policy that is set aside and put back.
pub data Restores : Policy → Policy → Type 0 where
  kept : {policy : Policy} → Restores policy policy
  lowered : Restores Policy.always Policy.auto

Restores-trans : {a b c : Policy} → Restores a b → Restores b c → Restores a c
Restores-trans kept s = s
Restores-trans lowered kept = lowered

enabled : {a b : Policy} → Restores a b → is_policy_enabled b ≡ is_policy_enabled a
unfolding is_policy_enabled
enabled kept = refl
enabled lowered = refl

put_back : (policy : Policy) → is_policy_enabled policy ≡ true → Restores policy Policy.auto
unfolding is_policy_enabled
put_back Policy.never h = cc
put_back Policy.auto h = kept
put_back Policy.always h = lowered
put_back (Policy.other n) h = cc

module _ (system : System)
    (takes : (asked policy : Policy) → system.set_mmap_policy asked policy ≡ asked) (p : Platform)
    (q : DeviceQuirks) where
  open system use {W}

  -- the policy of a device after an opening, against the one before it
  abbrev Put : Policy → Reply system p q → Type 0
  Put policy r = Restores policy r.2.mmap_policy

  after : Bool → Device W → Device W
  after disable d =
      let during = if disable then set_mmap_enabled system false d else d in
      if disable then set_mmap_enabled system (is_mmap_enabled d) during else during

  after-Restores :
      (safe : Bool) (d : Device W)
      → Restores d.mmap_policy (after (is_mmap_enabled d && not safe) d).mmap_policy
  unfolding after
  after-Restores safe d = elim (Bool-cases (is_mmap_enabled d)) [
    | inr off ↦ rw off kept
    | inl on ↦ elim (Bool-cases safe) [
      | inl good ↦ rw (on, good) kept
      | inr bad ↦
          rw (on, bad)
            (subst (Restores d.mmap_policy) (sym (takes Policy.auto _)) (put_back d.mmap_policy on))
    ]
  ]

  finish-Restores :
      (b child : AudioStreamBase) (built : Option AudioStream) (d : Device W)
      → Put d.mmap_policy (finish system p q b child built d)
  unfolding finish after
  finish-Restores b child built d =
      if-elim (Put d.mmap_policy) _ (after-Restores (is_mmap_safe p q child) d)
        (after-Restores (is_mmap_safe p q child) d)

  convert-Restores :
      (b child : AudioStreamBase) (s : AudioStream) (d : Device W)
      → Put d.mmap_policy (convert system p q b child s d)
  unfolding convert
  convert-Restores b child s d =
      if-elim (Put d.mmap_policy) _ (finish-Restores b child _ d) (finish-Restores b child none _)

  use_child-Restores :
      (b child : AudioStreamBase) (reply : Reply system p q)
      → Put reply.2.mmap_policy (use_child system p q b child reply)
  unfolding use_child
  use_child-Restores b child (r, stream s, d) = elim (Bool-cases (is_ok r)) [
    | inr e ↦ rw e kept
    | inl e ↦ elim (Bool-cases (is_compatible b (info_of s).settings)) [
      | inl fits ↦ rw (e, fits) kept
      | inr differs ↦ rw (e, differs) (convert-Restores b child s d)
    ]
  ]
  use_child-Restores b child (r, null, d) = kept
  use_child-Restores b child (r, untouched, d) = kept

  opened :
      (fuel : ℕ) (b : AudioStreamBase) (d : Device W)
      → Returned (Put d.mmap_policy) (open_stream system p q fuel b d)
  unfolding open_stream
  opened zero b d = blocks
  opened (suc n) b d =
      if-elim (Returned (Put d.mmap_policy)) _
        (if-elim (Returned (Put d.mmap_policy)) _ (through _ (opened n _ d))
          (returns (finish-Restores b _ none d)))
        (returns kept)
    where
      through :
          (below : Option (Reply system p q))
          → Returned (Put d.mmap_policy) below
          → Returned
              (Put d.mmap_policy)
              (after_child system p q b (is_conversion_needed p q b b).1 below)
      through none h = blocks
      through (some reply) (returns h) = returns (Restores-trans h (use_child-Restores b _ reply))

  -- If AAudio takes every policy that it is asked to set, then whether the stream opens or not, and whether a
  -- child is opened for it, the MMAP policy is in the end what it was before, except that `ALWAYS` may have
  -- become `AUTO`; so MMAP is enabled exactly if it was.
  pub open_stream-Restores :
      (fuel : ℕ) (b : AudioStreamBase) (d : Device W)
      → Returned
          (λ (r : Reply system p q).
            Restores d.mmap_policy r.2.mmap_policy × (is_mmap_enabled r.2 ≡ is_mmap_enabled d))
          (open_stream system p q fuel b d)
  open_stream-Restores fuel b d = both _ (opened fuel b d)
    where
      both :
          (r : Option (Reply system p q))
          → Returned (Put d.mmap_policy) r
          → Returned
              (λ (r : Reply system p q).
                Restores d.mmap_policy r.2.mmap_policy × (is_mmap_enabled r.2 ≡ is_mmap_enabled d))
              r
      both none h = blocks
      both (some r) (returns h) = returns (h, enabled h)
