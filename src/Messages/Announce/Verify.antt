-- ===== src/Messages/Announce/Verify.antt =====
-- Which app announcements `AnnounceAppId::verify` lets through.
use orb_relay_messages.Common.{
  ◌≤◌, ◌<◌, ◌≡◌, ◌↔◌, ◌⊎◌, inl, inr, arith, Option, none, some, Option-cases,
}
use orb_relay_messages.Common.Bytes.{Bytes}
use orb_relay_messages.Common.Outcome.{ok}
use orb_relay_messages.Messages.Blake3.{Blake3}
use orb_relay_messages.Messages.AppData
use orb_relay_messages.Messages.AppData.{AppAuthenticatedData}
use orb_relay_messages.Messages.OrbData.{OrbAuthenticatedData}
use orb_relay_messages.Messages.Announce.{
  AnnounceAppId, IpcpHpkePayload, orb_pairing_protocol_version, check_orb_nonce, verify,
}

-- The nonce rule: from the pairing protocol version on, the echo of the Orb's nonce if it sent one.
abbrev pub Echoes : AnnounceAppId → Option OrbAuthenticatedData → Type 0
Echoes a none = Unit {0}
Echoes a (some o) =
    (a.protocol_version < orb_pairing_protocol_version) ⊎ (a.orb_nonce ≡ o.orb_nonce)

abbrev pub IsAccepted : Blake3 → AnnounceAppId → Bytes → Option OrbAuthenticatedData → Type 0
IsAccepted b a hash o =
    ((d : AppAuthenticatedData) × (a.app_data ≡ some d) × (AppData.verify b d hash ≡ ok tt))
    × ((a.encrypted_ipcp_payload ≡ none) ⊎ (orb_pairing_protocol_version ≤ a.protocol_version))
    × Echoes a o

module _ (b : Blake3) (a : AnnounceAppId) (hash : Bytes) where
  echoes : (o : Option OrbAuthenticatedData) → (check_orb_nonce a o ≡ ok tt) ↔ Echoes a o
  unfolding check_orb_nonce
  echoes none = ground arith
  echoes (some o) = ground arith

  -- An announcement is accepted exactly if it has app data that verifies against the QR hash, an
  -- iPCP payload comes from protocol 4 on only, and from protocol 4 on the nonce of the Orb data
  -- is echoed, if the Orb sent such data.
  pub IsAccepted-iff :
      (o : Option OrbAuthenticatedData) → (verify b a hash o ≡ ok tt) ↔ IsAccepted b a hash o
  unfolding verify
  IsAccepted-iff o = elim (Option-cases a.app_data) [
    | inl missing ↦ (λ e. ground arith, λ h. ground arith)
    | inr (d, found) ↦ (
      λ e. ((d, found, ground arith), ground arith, (echoes o).0 (ground arith)),
      λ h. ground (arith, echoes o),
    )
  ]

  -- An iPCP payload is bound to the pairing: accepted beside Orb data, it comes from protocol 4 on
  -- and with the echo of that Orb's nonce.
  ipcp_bound :
      (o : OrbAuthenticatedData) (p : IpcpHpkePayload)
      → a.encrypted_ipcp_payload ≡ some p
      → verify b a hash (some o) ≡ ok tt
      → (orb_pairing_protocol_version ≤ a.protocol_version) × (a.orb_nonce ≡ o.orb_nonce)
  ipcp_bound o p h e = let (_, r, n) = (IsAccepted-iff (some o)).0 e in ground arith
