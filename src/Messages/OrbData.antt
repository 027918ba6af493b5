-- ===== src/Messages/OrbData.antt =====
-- `OrbAuthenticatedData::verify` of rust/src/lib.rs: the check of an Orb announcement by the app.
pub mod Verify
use orb_relay_messages.Common.{
  ℕ, List, [], Bool, not, ◌++◌, ◌==◌, is_empty, length, ite, Option, none, some,
}
use orb_relay_messages.Common.Bytes.{Bytes, bytes, Bytes-discrete}
use orb_relay_messages.Common.Outcome.{Outcome, ok, err, ◌>>=◌, ◌>>◌, ensure}

pub record OrbAuthenticatedData : Type 0 where
  pub version : ℕ
  pub ipcp_encryption_public_key : Bytes
  pub orb_nonce : Bytes
  pub request_nonce : Bytes

pub data OrbValidationError : Type 0 where
  invalid_signature : OrbValidationError
  unsupported_version : OrbValidationError
  invalid_orb_nonce : OrbValidationError
  request_nonce_mismatch : OrbValidationError
  unexpected_request_nonce : OrbValidationError

-- The `p256` crate's signature check, and the encoder that `prost` generates.
pub record Signing : Type 1 where
  pub VerifyingKey : Type 0
  pub Signature : Type 0
  pub verify_bytes : VerifyingKey → Bytes → Signature → Bool
  pub encode_to_vec : OrbAuthenticatedData → Bytes

abbrev pub orb_data_signature_domain : Bytes
orb_data_signature_domain = bytes "orb-authenticated-data-signature"

-- `OrbAuthenticatedData::VERSION`.
abbrev pub current_version : ℕ
current_version = 1

-- The `match request_nonce` of `verify`.
unfoldable pub check_request_nonce :
    OrbAuthenticatedData → Option Bytes → Outcome OrbValidationError (Unit {0})
check_request_nonce d (some nonce) =
    ite (Bytes-discrete d.request_nonce nonce) (ok tt)
      (err OrbValidationError.request_nonce_mismatch)
check_request_nonce d none =
    ensure (is_empty d.request_nonce) OrbValidationError.unexpected_request_nonce

module _ (s : Signing) where
  open s use {VerifyingKey, Signature, verify_bytes, encode_to_vec}

  unfoldable pub verify :
      OrbAuthenticatedData
      → VerifyingKey
      → Signature
      → Option Bytes
      → Outcome OrbValidationError (Unit {0})
  unfolding check_request_nonce
  verify d attestation_key signature request_nonce = do
    let signed_data = orb_data_signature_domain ++ encode_to_vec d
    ensure (verify_bytes attestation_key signed_data signature) OrbValidationError.invalid_signature
    ensure (d.version == current_version) OrbValidationError.unsupported_version
    ensure (length d.orb_nonce == 32) OrbValidationError.invalid_orb_nonce
    check_request_nonce d request_nonce
