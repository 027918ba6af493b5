-- ===== src/Messages/AppData/Reference.antt =====
-- The reference hashes in the unit tests of rust/src/lib.rs, and the implementation against them.
use orb_relay_messages.Common.{
  ℕ, ◌≡◌, ◌≢◌, ◌↔◌, inl, inr, sym, ◌∙◌, List, [], ◌∷◌, ◌==◌, ltb, length, not, arith, if◌then◌else◌,
}
use orb_relay_messages.Common.Bytes.{Bytes, Text, u32_mod, to_le_bytes}
use orb_relay_messages.Common.Outcome.{Outcome, ok, panic, ◌>>=◌, map_err}
use orb_relay_messages.Messages.Blake3.{Blake3}
use orb_relay_messages.Messages.AppData.{
  AppAuthenticatedData, VerifyError, current_version, close, hash, hash_v1, legacy_hash, computed,
  verify,
}
use orb_relay_messages.Messages.AppData.Preimage.{IsHashable}
use orb_relay_messages.Messages.AppData.Digest.{computed-IsHashable}

module _ (b : Blake3) where
  open b use {Hasher, new, update, finalize_xof}

  unfoldable pub finish : Hasher → ℕ → Bytes
  finish hasher n = finalize_xof hasher n

  -- The loops of the tests: bare fields, and fields behind their lengths.
  unfoldable pub update_all : Hasher → List Text → Hasher
  update_all h [] = h
  update_all h (v ∷ vs) = update_all (update h v) vs

  unfoldable pub update_prefixed : {E : Type 0} → Hasher → List Text → Outcome E Hasher
  update_prefixed h [] = ok h
  update_prefixed h (v ∷ vs) =
      let rest = update_prefixed (update (update h (to_le_bytes (length v))) v) vs in
      if ltb (length v) u32_mod then rest else panic

  unfoldable pub with_versions : {E : Type 0} → AppAuthenticatedData → ℕ → Hasher → Outcome E Bytes
  unfolding finish
  with_versions d n h =
      ok (finish (update (update h (to_le_bytes d.pcp_version)) (to_le_bytes d.version)) n)

  unfoldable pub reference_legacy : AppAuthenticatedData → ℕ → Bytes
  unfolding finish update_all
  reference_legacy d n =
      let h =
        update_all new
          (d.identity_commitment ∷ d.self_custody_public_key ∷ d.os_version ∷ d.os ∷ []) in
      finish (if not (d.pcp_version == 2) then update h (to_le_bytes d.pcp_version) else h) n

  unfoldable pub reference_v1 : {E : Type 0} → AppAuthenticatedData → ℕ → Outcome E Bytes
  unfolding update_prefixed with_versions
  reference_v1 d n =
      update_prefixed new
        (d.self_custody_public_key ∷ d.identity_commitment ∷ d.os ∷ d.os_version ∷ [])
      >>= with_versions d n

  unfoldable pub reference_current : {E : Type 0} → AppAuthenticatedData → ℕ → Outcome E Bytes
  unfolding update_prefixed with_versions
  reference_current d n =
      update_prefixed new (
        d.self_custody_public_key ∷ d.identity_commitment ∷ d.os ∷ d.os_version
        ∷ d.device_public_key ∷ [])
      >>= with_versions d n

  -- The reference of the data's own version.
  unfoldable pub reference : AppAuthenticatedData → ℕ → Outcome VerifyError Bytes
  unfolding reference_current reference_v1 reference_legacy
  reference d n =
      if d.version == current_version
      then reference_current d n
      else if d.version == 1
      then reference_v1 d n
      else ok (reference_legacy d n)

  hash-reference_current :
      (d : AppAuthenticatedData) (n : ℕ)
      → d.version ≡ current_version
      → d.device_public_key ≢ []
      → map_err VerifyError.unhashable (hash b d n) ≡ reference_current d n
  unfolding hash close reference_current with_versions finish
  hash-reference_current d n v k = ground arith

  hash_v1-reference_v1 :
      (d : AppAuthenticatedData) (n : ℕ)
      → d.version ≡ 1
      → hash_v1 b {E = VerifyError} d n ≡ reference_v1 d n
  unfolding hash_v1 close reference_v1 with_versions finish
  hash_v1-reference_v1 d n v = ground arith

  legacy_hash-reference_legacy :
      (d : AppAuthenticatedData) (n : ℕ) → legacy_hash b d n ≡ reference_legacy d n
  unfolding legacy_hash reference_legacy finish
  legacy_hash-reference_legacy d n = ground arith

  computed-reference :
      (d : AppAuthenticatedData) (n : ℕ) → IsHashable d → computed b d n ≡ reference d n
  unfolding computed reference
  computed-reference d n (inl (v, k)) = ground (arith, hash-reference_current d n v k)
  computed-reference d n (inr (inl v, k)) = ground (arith, hash_v1-reference_v1 d n v)
  computed-reference d n (inr (inr v, k)) = ground (arith, legacy_hash-reference_legacy d n)

  verify-computed :
      (d : AppAuthenticatedData) (h : Bytes)
      → (verify b d h ≡ ok tt) ↔ ((h ≢ []) × (computed b d (length h) ≡ ok h))
  unfolding verify
  verify-computed d [] = ground arith
  verify-computed d (x ∷ xs) = ground arith

  -- `verify` agrees with the tests' own hashes, for every hasher and every data: it accepts a hash
  -- exactly if it is not empty, the version has a hash format with the device key that it asks for,
  -- and the reference for that version gives this hash at its own length.
  pub verify-reference :
      (d : AppAuthenticatedData) (h : Bytes)
      → (verify b d h ≡ ok tt) ↔ ((h ≢ []) × IsHashable d × (reference d (length h) ≡ ok h))
  verify-reference d h = (
    λ e.
        let (n, c) = (verify-computed d h).0 e in
        let k = computed-IsHashable b d (length h) c in
        (n, k, sym (computed-reference d (length h) k) ∙ c),
    λ (n, k, r). (verify-computed d h).1 (n, computed-reference d (length h) k ∙ r),
  )
