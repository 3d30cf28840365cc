-- ===== src/Aaudio/Balance.antt =====
-- What opening leaves: a stream exactly where it succeeds, and no builder.
use android_audio_samples.Prelude.{
  ℕ, ◌+◌, ◌-◌, ◌≡◌, arith, Bool, true, false, Option, none, some, ◌⊎◌, if◌then◌else◌,
}
use android_audio_samples.Definitions.{Result, is_ok}
use android_audio_samples.StreamBase.{Platform}
use android_audio_samples.Aaudio.{Library, Stream, Request}
use android_audio_samples.Aaudio.Open.{open_aaudio, open_with, cache_properties, make_request}

abbrev pub is_some : Option ℕ → Bool
is_some none = false
is_some (some h) = true

-- What AAudio documents of its builders, with `live` the number of those not deleted: creating one adds it
-- where it succeeds, opening a stream keeps it and gives a stream exactly where it succeeds, and deleting
-- takes one away.
pub record IsDocumented (library : Library) (live : library.W → ℕ) : Type 0 where
  pub creates :
      (w : library.W)
      → let (result, w') = library.create_builder w in
        live w' ≡ (if is_ok result then live w + 1 else live w)
  pub opens :
      (r : Request) (w : library.W)
      → let (result, handle, w') = library.open_stream r w in
        (live w' ≡ live w) × (is_some handle ≡ is_ok result)
  pub deletes : (w : library.W) → live (library.delete_builder w) ≡ live w - 1

module _ (library : Library) (p : Platform) (live : library.W → ℕ)
    (documented : IsDocumented library live) where
  open library use {W, create_builder, open_stream, delete_builder}

  -- On AAudio as documented, opening deletes each builder that it creates, on every path; a stream that
  -- is open is refused and left as it was, and one that is not has a stream of AAudio afterwards exactly
  -- where the result is `OK`.
  pub open_aaudio_lem :
      (s : Stream) (w : W)
      → let (result, s', w') = open_aaudio library p s w in
        (live w' ≡ live w)
        × (((is_some s.aaudio_stream ≡ true) × (result ≡ Result.error_invalid_state) × (s' ≡ s))
            ⊎ ((s.aaudio_stream ≡ none) × (is_some s'.aaudio_stream ≡ is_ok result)))
  unfolding open_aaudio open_with cache_properties
  open_aaudio_lem s w =
      let (created, w1) = create_builder w in
      let (opened, handle, w2) = open_stream (make_request library p s.base) w1 in
      let a = documented.creates w in
      let b = documented.opens (make_request library p s.base) w1 in
      let c = documented.deletes w2 in ground (arith, a, b, c)
