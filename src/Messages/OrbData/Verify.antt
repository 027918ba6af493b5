-- ===== src/Messages/OrbData/Verify.antt =====
-- Which Orb announcements `OrbAuthenticatedData::verify` lets through.
use orb_relay_messages.Common.{
  [], true, ◌++◌, length, Option, none, some, ◌≡◌, ◌↔◌, arith, refl, ◌∙◌, sym, ap,
}
use orb_relay_messages.Common.Bytes.{Bytes}
use orb_relay_messages.Common.Outcome.{ok}
use orb_relay_messages.Messages.OrbData.{
  OrbAuthenticatedData, Signing, orb_data_signature_domain, current_version, check_request_nonce,
  verify,
}

-- The request nonce that a pairing expects: its own in scan-to-pair, none otherwise.
abbrev pub expected : Option Bytes → Bytes
expected none = []
expected (some nonce) = nonce

check_request_nonce-ok_iff :
    (d : OrbAuthenticatedData) (r : Option Bytes)
    → (check_request_nonce d r ≡ ok tt) ↔ (d.request_nonce ≡ expected r)
unfolding check_request_nonce
check_request_nonce-ok_iff d none = ground arith
check_request_nonce-ok_iff d (some nonce) = ground arith

abbrev pub IsNonce : Option Bytes → Type 0
IsNonce none = Unit {0}
IsNonce (some nonce) = length nonce ≡ 32

expected_inj : (r r' : Option Bytes) → IsNonce r → IsNonce r' → expected r ≡ expected r' → r ≡ r'
expected_inj none none h h' e = refl
expected_inj none (some n) h h' e = absurd (omega (arith, ap length e))
expected_inj (some n) none h h' e = absurd (omega (arith, ap length e))
expected_inj (some n) (some m) h h' e = cc

module _ (s : Signing) (key : s.VerifyingKey) (signature : s.Signature)
    (d : OrbAuthenticatedData) where
  -- An announcement is valid exactly if the key signed its domain-separated bytes, its version is
  -- the current one, the Orb nonce has 32 bytes and the request nonce is the expected one.
  pub orb_valid_iff :
      (r : Option Bytes)
      → (verify s d key signature r ≡ ok tt) ↔ (
          (s.verify_bytes key (orb_data_signature_domain ++ s.encode_to_vec d) signature ≡ true)
          × (d.version ≡ current_version)
          × (length d.orb_nonce ≡ 32)
          × (d.request_nonce ≡ expected r))
  unfolding verify
  orb_valid_iff r = ground (arith, check_request_nonce-ok_iff d r)

  -- A signed announcement serves one pairing only: if it is valid for two expectations, each none
  -- or a nonce of 32 bytes, the two are the same.
  orb_valid_once :
      (r r' : Option Bytes)
      → IsNonce r
      → IsNonce r'
      → verify s d key signature r ≡ ok tt
      → verify s d key signature r' ≡ ok tt
      → r ≡ r'
  orb_valid_once r r' n n' e e' =
      expected_inj r r' n n' (sym ((orb_valid_iff r).0 e).3 ∙ ((orb_valid_iff r').0 e').3)
