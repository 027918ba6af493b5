-- ===== src/Messages/Announce.antt =====
-- `AnnounceAppId` of rust/src/lib.rs: the check of an app announcement by the Orb, and its
-- `Display`.
pub mod Verify
pub mod Redaction
use orb_relay_messages.Common.{
  ℕ, List, [], ◌∷◌, Bool, not, ◌&&◌, leb, ltb, true, false, if◌then◌else◌, is_empty, ite, Option,
  none, some, String,
}
use orb_relay_messages.Common.Bytes.{Bytes, Text, Bytes-discrete}
use orb_relay_messages.Common.Outcome.{Outcome, ok, err, ◌>>=◌, ◌>>◌, ensure, ok_or}
use orb_relay_messages.Messages.Blake3.{Blake3}
use orb_relay_messages.Messages.AppData
use orb_relay_messages.Messages.AppData.{AppAuthenticatedData, VerifyError}
use orb_relay_messages.Messages.OrbData.{OrbAuthenticatedData}

pub record AppointmentMetadata : Type 0 where
  pub proof : Text
  pub merkle_root : Text
  pub nullifier_hash : Text
  pub signal : ℕ

pub record P2pNodeInfo : Type 0 where
  pub node_id : Text
  pub direct_addresses : List Text
  pub relay_url : Text

pub record IpcpHpkePayload : Type 0 where
  pub enc : Bytes
  pub ciphertext : Bytes

pub record AnnounceAppId : Type 0 where
  pub protocol_version : ℕ
  pub heartbeat : Bool
  pub app_data : Option AppAuthenticatedData
  pub appointment_metadata : Option AppointmentMetadata
  pub bypass_age_verification_token : Text
  pub is_test : Bool
  pub p2p_node_info : Option P2pNodeInfo
  pub encrypted_ipcp_payload : Option IpcpHpkePayload
  pub orb_nonce : Bytes

-- `AnnounceAppId::ORB_PAIRING_PROTOCOL_VERSION`.
abbrev pub orb_pairing_protocol_version : ℕ
orb_pairing_protocol_version = 4

abbrev pub is_some : {A : Type 0} → Option A → Bool
is_some none = false
is_some (some a) = true

-- The `match orb_data` of `verify`.
unfoldable pub check_orb_nonce :
    AnnounceAppId → Option OrbAuthenticatedData → Outcome VerifyError (Unit {0})
check_orb_nonce a none = ok tt
check_orb_nonce a (some orb_data) =
    if leb orb_pairing_protocol_version a.protocol_version
    then ite (Bytes-discrete a.orb_nonce orb_data.orb_nonce) (ok tt)
        (err VerifyError.orb_nonce_mismatch)
    else ok tt

unfoldable pub verify :
    Blake3 → AnnounceAppId → Bytes → Option OrbAuthenticatedData → Outcome VerifyError (Unit {0})
unfolding check_orb_nonce
verify b a hash orb_data = do
  app_data ← ok_or a.app_data VerifyError.missing_app_data
  AppData.verify b app_data hash
  ensure
      (not
        (is_some a.encrypted_ipcp_payload && ltb a.protocol_version orb_pairing_protocol_version))
      VerifyError.unbound_ipcp_payload
  check_orb_nonce a orb_data

-- The values of the `serde_json::json!` object that `fmt` writes, and its fields in source order.
pub data Json : Type 0 where
  null : Json
  bool : Bool → Json
  num : ℕ → Json
  str : Text → Json

abbrev to_json : {A : Type 0} → (A → Json) → Option A → Json
to_json f none = Json.null
to_json f (some a) = f a

unfoldable pub fields : AnnounceAppId → List (String × Json)
fields a =
    ("protocol_version", Json.num a.protocol_version)
    ∷ ("heartbeat", Json.bool a.heartbeat)
    ∷ ("is_test", Json.bool a.is_test)
    ∷ ("has_app_data", Json.bool (is_some a.app_data))
    ∷ ("has_appointment_metadata", Json.bool (is_some a.appointment_metadata))
    ∷ ("has_p2p_node_info", Json.bool (is_some a.p2p_node_info))
    ∷ ("os", to_json (λ d. Json.str d.os) a.app_data)
    ∷ ("os_version", to_json (λ d. Json.str d.os_version) a.app_data)
    ∷ ("pcp_version", to_json (λ d. Json.num d.pcp_version) a.app_data)
    ∷ ("app_data_version", to_json (λ d. Json.num d.version) a.app_data)
    ∷ ("has_encrypted_ipcp_payload", Json.bool (is_some a.encrypted_ipcp_payload))
    ∷ (
      "has_bypass_age_verification_token",
      Json.bool (not (is_empty a.bypass_age_verification_token)),
    )
    ∷ []

-- `Display::fmt` and `Debug::fmt`; `print` is `serde_json`'s printer.
unfoldable pub fmt : (List (String × Json) → Text) → AnnounceAppId → Text
unfolding fields
fmt print a = print (fields a)
