-- ===== src/Messages/Announce/Redaction.antt =====
-- What `Display` and `Debug` of an app announcement give away.
use orb_relay_messages.Common.{List, [], ◌∷◌, ◌≡◌, ap, Option, none, some, String, arith}
use orb_relay_messages.Common.Bytes.{Text}
use orb_relay_messages.Messages.AppData.{AppAuthenticatedData}
use orb_relay_messages.Messages.Announce.{
  AnnounceAppId, AppointmentMetadata, P2pNodeInfo, IpcpHpkePayload, Json, fmt,
}

abbrev blank_metadata : Option AppointmentMetadata → Option AppointmentMetadata
blank_metadata none = none
blank_metadata (some m) =
    some (record { proof = []; merkle_root = []; nullifier_hash = []; signal = 0 })

abbrev blank_node : Option P2pNodeInfo → Option P2pNodeInfo
blank_node none = none
blank_node (some n) = some (record { node_id = []; direct_addresses = []; relay_url = [] })

abbrev blank_payload : Option IpcpHpkePayload → Option IpcpHpkePayload
blank_payload none = none
blank_payload (some p) = some (record { enc = []; ciphertext = [] })

-- The keys and the identity commitment are blanked, the rest stays.
abbrev blank_app_data : Option AppAuthenticatedData → Option AppAuthenticatedData
blank_app_data none = none
blank_app_data (some d) =
    some
      (record d { self_custody_public_key = []; identity_commitment = []; device_public_key = [] })

abbrev blank_token : Text → Text
blank_token [] = []
blank_token (c ∷ cs) = 0 ∷ []

-- An announcement with every secret blanked: keys, identity commitment, proofs, node addresses,
-- ciphertext, nonce, and the token but for its presence.
abbrev pub redact : AnnounceAppId → AnnounceAppId
redact a = record a {
  app_data = blank_app_data a.app_data;
  appointment_metadata = blank_metadata a.appointment_metadata;
  bypass_age_verification_token = blank_token a.bypass_age_verification_token;
  p2p_node_info = blank_node a.p2p_node_info;
  encrypted_ipcp_payload = blank_payload a.encrypted_ipcp_payload;
  orb_nonce = [];
}

-- No secret reaches the log: an announcement prints as its redaction does, under every printer.
pub fmt-redact :
    (print : List (String × Json) → Text) (a : AnnounceAppId) → fmt print a ≡ fmt print (redact a)
unfolding fmt
fmt-redact print a = ap print (ground arith)
