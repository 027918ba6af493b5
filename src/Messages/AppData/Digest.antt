-- ===== src/Messages/AppData/Digest.antt =====
-- `hash`, `hash_v1` and `legacy_hash` against the byte strings of Preimage.
use orb_relay_messages.Common.{
  ℕ, ◌≡◌, ◌≢◌, ◌↔◌, inl, inr, refl, sym, ap, ◌∙◌, List, [], ◌∷◌, ◌++◌, length, append_assoc,
  append-nil, arith,
}
use orb_relay_messages.Common.Bytes.{Bytes, Text, to_le_bytes}
use orb_relay_messages.Common.Outcome.{ok, ◌>>=◌}
use orb_relay_messages.Messages.Blake3.{Blake3, IsStreaming, digest}
use orb_relay_messages.Messages.AppData.{
  AppAuthenticatedData, HashError, VerifyError, current_version, absorb_fields, close, hash,
  hash_v1, legacy_hash, computed,
}
use orb_relay_messages.Messages.AppData.Preimage.{
  frames, v1_fields, current_fields, versions, preimage, IsSized, IsHashable, Sized, v1_Sized,
}

module _ (b : Blake3) (streaming : IsStreaming b) where
  open b use {Hasher, new, update, finalize_xof}
  open streaming use {update_update}

  absorb_fields-frames :
      {E : Type 0} (h : Hasher) (vs : List Text)
      → Sized vs
      → (h' : Hasher) × (absorb_fields b {E = E} h vs ≡ ok h')
        × ((t : Bytes) → update h' t ≡ update h (frames vs ++ t))
  unfolding absorb_fields frames
  absorb_fields-frames h [] s = (h, refl, λ t. refl)
  absorb_fields-frames {E} h (v ∷ vs) s =
      let start = update (update h (to_le_bytes (length v))) v in
      let (h', e, f) = absorb_fields-frames {E = E} start vs s.1 in
      (h', ground (arith, e), λ t. f t ∙ simp (update_update, append_assoc))

  -- Sized fields are absorbed and closed as one byte string.
  close-frames :
      {E : Type 0} (d : AppAuthenticatedData) (n : ℕ) (vs : List Text)
      → Sized vs
      → (absorb_fields b {E = E} new vs >>= λ h. ok (close b d n h))
        ≡ ok (digest b (frames vs ++ versions d) n)
  unfolding close
  close-frames {E} d n vs s =
      let (h, e, f) = absorb_fields-frames {E = E} new vs s in
      let g =
        update_update h (to_le_bytes d.pcp_version) (to_le_bytes d.version) ∙ f (versions d) in
      rw e (ap (λ x. ok (finalize_xof x n)) g)

  pub hash_current :
      (d : AppAuthenticatedData) (n : ℕ)
      → IsSized d
      → d.version ≡ current_version
      → d.device_public_key ≢ []
      → hash b d n ≡ ok (digest b (preimage d) n)
  unfolding hash preimage
  hash_current d n s v k =
      ground (arith, close-frames {E = HashError} d n (current_fields d) s.fields)

  pub hash_v1_lem :
      {E : Type 0} (d : AppAuthenticatedData) (n : ℕ)
      → IsSized d
      → d.version ≡ 1
      → hash_v1 b {E = E} d n ≡ ok (digest b (preimage d) n)
  unfolding hash_v1 preimage
  hash_v1_lem {E} d n s v = ground (arith, close-frames {E = E} d n (v1_fields d) (v1_Sized s))

  legacy_hash_lem :
      (d : AppAuthenticatedData) (n : ℕ)
      → d.version ≡ 0
      → legacy_hash b d n ≡ digest b (preimage d) n
  unfolding legacy_hash preimage
  legacy_hash_lem d n v =
      let h =
        update
          (update (update (update new d.identity_commitment) d.self_custody_public_key)
            d.os_version)
          d.os in
      let x = ((d.identity_commitment ++ d.self_custody_public_key) ++ d.os_version) ++ d.os in
      let e : h ≡ update new x = simp (update_update, append_assoc) in
      let f : update new (x ++ []) ≡ update new x = rw append-nil in
      ground (arith, e, f, update_update new x (to_le_bytes d.pcp_version))

  -- Hashable data is hashed as the bytes of its own format.
  pub computed_hashable :
      (d : AppAuthenticatedData) (n : ℕ)
      → IsSized d
      → IsHashable d
      → computed b d n ≡ ok (digest b (preimage d) n)
  unfolding computed
  computed_hashable d n s (inl (v, k)) = ground (arith, hash_current d n s v k)
  computed_hashable d n s (inr (inl v, k)) = ground (arith, hash_v1_lem {E = VerifyError} d n s v)
  computed_hashable d n s (inr (inr v, k)) = ground (arith, legacy_hash_lem d n v)

  hash-ok :
      (d : AppAuthenticatedData) (n : ℕ) (out : Bytes)
      → hash b d n ≡ ok out
      → (d.version ≡ current_version) × (d.device_public_key ≢ [])
  unfolding hash
  hash-ok d n out e = ground arith

  -- `hash` gives a digest exactly of current data with a device key.
  pub hash-ok_iff :
      (d : AppAuthenticatedData) (n : ℕ) (out : Bytes)
      → IsSized d
      → (hash b d n ≡ ok out) ↔ (
          (d.version ≡ current_version)
          × (d.device_public_key ≢ [])
          × (out ≡ digest b (preimage d) n))
  hash-ok_iff d n out s = (
    λ e. let (v, k) = hash-ok d n out e in (v, k, cc (e, hash_current d n s v k)),
    λ (v, k, o). hash_current d n s v k ∙ ap ok (sym o),
  )

-- Data that is hashed at all is hashable.
pub computed-IsHashable :
    (b : Blake3) (d : AppAuthenticatedData) (n : ℕ) {c : Bytes}
    → computed b d n ≡ ok c
    → IsHashable d
unfolding computed hash
computed-IsHashable b d n e = ground arith
