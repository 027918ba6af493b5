-- ===== src/Messages/AppData/Verify.antt =====
-- `AppAuthenticatedData::verify`.
use orb_relay_messages.Common.{
  ℕ, ◌<◌, ◌≡◌, ◌≢◌, ◌↔◌, inl, inr, refl, sym, ap, ◌∙◌, [], ◌∷◌, ◌==◌, length, arith, if◌then◌else◌,
  ltb,
}
use orb_relay_messages.Common.Bytes.{Bytes, Text}
use orb_relay_messages.Common.Outcome.{ok, err, panic}
use orb_relay_messages.Messages.Blake3.{Blake3, IsStreaming, digest}
use orb_relay_messages.Messages.AppData.{
  AppAuthenticatedData, HashError, VerifyError, current_version, hash, computed, verify,
}
use orb_relay_messages.Messages.AppData.Preimage.{preimage, IsSized, IsHashable}
use orb_relay_messages.Messages.AppData.Digest.{
  computed_hashable, computed-IsHashable, hash-ok_iff, hash_current, hash_v1_lem,
}
use orb_relay_messages.Messages.AppData.Injective.{preimage_inj}

module _ (b : Blake3) where
  verify_hashable :
      (d : AppAuthenticatedData) (h c : Bytes)
      → computed b d (length h) ≡ ok c
      → (verify b d h ≡ ok tt) ↔ ((h ≢ []) × (h ≡ c))
  unfolding verify
  verify_hashable d [] c e = ground arith
  verify_hashable d (x ∷ xs) c e = ground arith

  verify-ok-IsHashable :
      (d : AppAuthenticatedData) (h : Bytes) → verify b d h ≡ ok tt → IsHashable d
  unfolding verify
  verify-ok-IsHashable d h e = grind (arith, computed-IsHashable b d (length h))

module _ (b : Blake3) (streaming : IsStreaming b) where
  -- `verify` accepts a hash exactly if it is not empty, the version has a hash format with the
  -- device key that it asks for (none before version 2), and the hash is the digest of the bytes
  -- of that format, at the hash's own length.
  pub verify-ok_iff :
      (d : AppAuthenticatedData) (h : Bytes)
      → IsSized d
      → (verify b d h ≡ ok tt) ↔ ((h ≢ []) × IsHashable d × (h ≡ digest b (preimage d) (length h)))
  verify-ok_iff d h s = (
    λ e.
        let k = verify-ok-IsHashable b d h e in
        let (p, q) =
          (verify_hashable b d h _ (computed_hashable b streaming d (length h) s k)).0 e in
        (p, k, q),
    λ (p, k, q).
        (verify_hashable b d h _ (computed_hashable b streaming d (length h) s k)).1 (p, q),
  )

  -- A hash that `hash` computed, at a length that is not 0, verifies.
  pub verify-hash :
      (d : AppAuthenticatedData) (n : ℕ) (h : Bytes)
      → IsSized d
      → 0 < n
      → hash b d n ≡ ok h
      → verify b d h ≡ ok tt
  verify-hash d n h s p e =
      let (v, k, o) = (hash-ok_iff b streaming d n h s).0 e in
      let l : length h ≡ n = rw o (streaming.length-finalize_xof _ n) in
      (verify-ok_iff d h s).1 (λ z. absurd (omega (arith, l, ap length z)), inl (v, k), rw l o)

  -- Tamper evidence. Two different data with versions 1 or 2 that verify against one hash give a
  -- collision of the digest: two different byte strings with that same digest.
  pub verify_collision :
      (d d' : AppAuthenticatedData) (h : Bytes)
      → IsSized d
      → IsSized d'
      → d.version ≢ 0
      → d'.version ≢ 0
      → verify b d h ≡ ok tt
      → verify b d' h ≡ ok tt
      → d ≢ d'
      → (preimage d ≢ preimage d')
        × (digest b (preimage d) (length h) ≡ digest b (preimage d') (length h))
  verify_collision d d' h s s' z z' e e' n =
      let (_, k, q) = (verify-ok_iff d h s).0 e in
      let (_, k', q') = (verify-ok_iff d' h s').0 e' in
      (λ p. n (preimage_inj d d' s s' k k' z z' p), sym q ∙ q')

  -- Under sized fields no length conversion and no version assertion fails: `verify` returns.
  pub verify-ne-panic : (d : AppAuthenticatedData) (h : Bytes) → IsSized d → verify b d h ≢ panic
  unfolding verify
  verify-ne-panic d [] s = ground arith
  verify-ne-panic d (x ∷ xs) s = ground (
    arith,
    hash_current b streaming d (length (x ∷ xs)) s,
    hash_v1_lem b streaming {E = VerifyError} d (length (x ∷ xs)) s,
  )

-- The error of data that has no hash: a missing device key in the current version, a device key in
-- an older one, and any other version.
abbrev pub refusal : AppAuthenticatedData → VerifyError
refusal d =
    if d.version == current_version
    then VerifyError.unhashable HashError.missing_device_public_key
    else if ltb d.version current_version
    then VerifyError.unbound_device_public_key
    else VerifyError.unsupported_version d.version

-- Data that is not hashable is refused whatever the hash, with the error that says why; and the
-- empty hash is refused first, whatever the data.
pub verify_refuses :
    (b : Blake3) (d : AppAuthenticatedData) (h : Bytes)
    → h ≢ []
    → ¬ IsHashable d
    → (verify b d h ≡ err (refusal d)) × (verify b d [] ≡ err VerifyError.empty_hash)
unfolding verify
verify_refuses b d [] n k = absurd (n refl)
verify_refuses b d (x ∷ xs) n k = (go d.device_public_key refl, refl)
  where
    go : (key : Text) → d.device_public_key ≡ key → verify b d (x ∷ xs) ≡ err (refusal d)
    go [] e = ground (
      arith,
      λ (v : d.version ≡ 1). k (inr (inl v, e)),
      λ (v : d.version ≡ 0). k (inr (inr v, e)),
    )
    go (c ∷ cs) e = ground (arith, λ (v : d.version ≡ current_version). k (inl (v, λ z. cc (e, z))))
