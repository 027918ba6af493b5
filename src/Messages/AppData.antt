-- ===== src/Messages/AppData.antt =====
-- `AppAuthenticatedData` of rust/src/lib.rs and proto/common/v1/orb.proto: its three hash formats,
-- and the check of a QR hash against it.
pub mod Preimage
pub mod Injective
pub mod Digest
pub mod Verify
pub mod Forge
pub mod Reference
use orb_relay_messages.Common.{
  ℕ, List, [], ◌∷◌, Bool, not, ◌&&◌, ◌||◌, ◌==◌, ltb, if◌then◌else◌, is_empty, length, ite,
}
use orb_relay_messages.Common.Bytes.{Bytes, Text, Bytes-discrete, u32_mod, to_le_bytes}
use orb_relay_messages.Common.Outcome.{Outcome, ok, err, panic, ◌>>=◌, ◌>>◌, ensure, map_err}
use orb_relay_messages.Messages.Blake3.{Blake3}

pub record AppAuthenticatedData : Type 0 where
  pub self_custody_public_key : Text
  pub identity_commitment : Text
  pub os : Text
  pub os_version : Text
  pub pcp_version : ℕ
  pub version : ℕ
  pub device_public_key : Text

abbrev pub pcp_version_default : ℕ
pcp_version_default = 2

-- `AppAuthenticatedData::VERSION`.
abbrev pub current_version : ℕ
current_version = 2

pub data HashError : Type 0 where
  wrong_version : ℕ → HashError
  missing_device_public_key : HashError

pub data VerifyError : Type 0 where
  empty_hash : VerifyError
  unsupported_version : ℕ → VerifyError
  unbound_device_public_key : VerifyError
  unhashable : HashError → VerifyError
  mismatch : VerifyError
  missing_app_data : VerifyError
  orb_nonce_mismatch : VerifyError
  unbound_ipcp_payload : VerifyError

module _ (b : Blake3) where
  open b use {Hasher, new, update, finalize_xof}

  -- One round of the loops of `hash` and `hash_v1`: the length as a little-endian u32, then the
  -- bytes. A length that is no u32 fails the `expect`.
  unfoldable pub absorb_field : {E : Type 0} → Hasher → Text → Outcome E Hasher
  absorb_field h v =
      if ltb (length v) u32_mod then ok (update (update h (to_le_bytes (length v))) v) else panic

  unfoldable pub absorb_fields : {E : Type 0} → Hasher → List Text → Outcome E Hasher
  unfolding absorb_field
  absorb_fields h [] = ok h
  absorb_fields h (v ∷ vs) = absorb_field h v >>= λ h'. absorb_fields h' vs

  -- The two version numbers that close the current and the v1 format, and the output.
  unfoldable pub close : AppAuthenticatedData → ℕ → Hasher → Bytes
  close d n h =
      finalize_xof (update (update h (to_le_bytes d.pcp_version)) (to_le_bytes d.version)) n

  unfoldable pub hash : AppAuthenticatedData → ℕ → Outcome HashError Bytes
  unfolding absorb_fields close
  hash d n = do
    ensure (d.version == current_version) (HashError.wrong_version d.version)
    ensure (not (is_empty d.device_public_key)) HashError.missing_device_public_key
    h ← absorb_fields new (
        d.self_custody_public_key ∷ d.identity_commitment ∷ d.os ∷ d.os_version
        ∷ d.device_public_key ∷ [])
    ok (close d n h)

  -- `assert_eq!(*version, 1)` first.
  unfoldable pub hash_v1 : {E : Type 0} → AppAuthenticatedData → ℕ → Outcome E Bytes
  unfolding absorb_fields close
  hash_v1 d n =
      if d.version == 1
      then (do
        h ←
            absorb_fields new
              (d.self_custody_public_key ∷ d.identity_commitment ∷ d.os ∷ d.os_version ∷ [])
        ok (close d n h))
      else panic

  unfoldable pub legacy_hash : AppAuthenticatedData → ℕ → Bytes
  legacy_hash d n =
      let h =
        update
          (update (update (update new d.identity_commitment) d.self_custody_public_key)
            d.os_version)
          d.os in
      finalize_xof
        (if d.pcp_version == pcp_version_default then h else update h (to_le_bytes d.pcp_version)) n

  -- The `match self.version` of `verify`.
  unfoldable pub computed : AppAuthenticatedData → ℕ → Outcome VerifyError Bytes
  unfolding hash hash_v1 legacy_hash
  computed d n =
      if d.version == current_version
      then map_err VerifyError.unhashable (hash d n)
      else if (d.version == 0 || d.version == 1) && not (is_empty d.device_public_key)
      then err VerifyError.unbound_device_public_key
      else if d.version == 1
      then hash_v1 d n
      else if d.version == 0
      then ok (legacy_hash d n)
      else err (VerifyError.unsupported_version d.version)

  unfoldable pub verify : AppAuthenticatedData → Bytes → Outcome VerifyError (Unit {0})
  unfolding computed
  verify d external_hash = do
    ensure (not (is_empty external_hash)) VerifyError.empty_hash
    c ← computed d (length external_hash)
    ite (Bytes-discrete external_hash c) (ok tt) (err VerifyError.mismatch)
