-- ===== src/Server/TlsMaterial.antt =====
-- test-utils/src/lib.rs: the certificates of the test server. rcgen, and what tonic makes of its
-- texts, are parameters.
use orb_relay_messages.Common.{ℕ, ◌≡◌, Option, some, List, [], ◌∷◌, Mem}
use orb_relay_messages.Common.Bytes.{Text, bytes}
use orb_relay_messages.Common.Outcome.{Outcome, ok, unwrap, ◌>>=◌}
use orb_relay_messages.Tls.{Transport}

-- The calls of rcgen; `generate n` is the n-th call of `KeyPair::generate`.
pub record Rcgen : Type 1 where
  pub KeyPair : Type 0
  pub CertificateParams : Type 0
  pub Certificate : Type 0
  pub generate : ℕ → Option KeyPair
  pub params : List Text → Option CertificateParams
  pub set_is_ca : CertificateParams → CertificateParams
  pub self_signed : CertificateParams → KeyPair → Option Certificate
  pub signed_by : CertificateParams → KeyPair → Certificate → KeyPair → Option Certificate
  pub pem : Certificate → Text
  pub serialize_pem : KeyPair → Text

-- `Identity::from_pem` of tonic::transport: a certificate and its key.
pub record Identity : Type 0 where
  pub cert : Text
  pub key : Text

pub record TlsMaterial (t : Transport) : Type 0 where
  pub ca_certificate : t.Certificate
  pub identity : Identity

abbrev pub hosts : List Text
hosts = bytes "localhost" ∷ bytes "127.0.0.1" ∷ []

unfoldable pub new : (r : Rcgen) (t : Transport) → Outcome (Unit {0}) (TlsMaterial t)
new r t = do
  ca_key ← unwrap (r.generate 0)
  ca_params ← unwrap (r.params [])
  ca_cert ← unwrap (r.self_signed (r.set_is_ca ca_params) ca_key)
  server_key ← unwrap (r.generate 1)
  server_params ← unwrap (r.params hosts)
  server_cert ← unwrap (r.signed_by server_params server_key ca_cert ca_key)
  ok (record {
    ca_certificate = t.from_pem (r.pem ca_cert);
    identity = record { cert = r.pem server_cert; key = r.serialize_pem server_key };
  })

-- `ca_certificate`.
abbrev pub ca_certificate : {t : Transport} → TlsMaterial t → t.Certificate
ca_certificate m = m.ca_certificate

-- What the standard asks of a server in a TLS handshake, and rcgen documents to give: who trusts a
-- self-signed authority accepts a certificate that it signed with its key, for every host that the
-- certificate names, from the holder of the key of the certificate.
pub record IsVerifying (r : Rcgen) (t : Transport) : Type 1 where
  pub accepts : List t.Certificate → Text → Identity → Type 0
  pub chain :
      (roots : List t.Certificate) (host : Text) (names : List Text)
      (ca_params params : r.CertificateParams) (ca_key key : r.KeyPair) (ca cert : r.Certificate)
      → Mem (t.from_pem (r.pem ca)) roots
      → r.self_signed (r.set_is_ca ca_params) ca_key ≡ some ca
      → r.params names ≡ some params
      → r.signed_by params key ca ca_key ≡ some cert
      → Mem host names
      → accepts roots host (record { cert = r.pem cert; key = r.serialize_pem key })

module _ (r : Rcgen) (t : Transport) where
  -- How the material was made.
  record IsMade (m : TlsMaterial t) : Type 0 where
    ca_params : r.CertificateParams
    server_params : r.CertificateParams
    ca_key : r.KeyPair
    server_key : r.KeyPair
    ca_cert : r.Certificate
    server_cert : r.Certificate
    self_signed : r.self_signed (r.set_is_ca ca_params) ca_key ≡ some ca_cert
    named : r.params hosts ≡ some server_params
    signed : r.signed_by server_params server_key ca_cert ca_key ≡ some server_cert
    ca_pem : m.ca_certificate ≡ t.from_pem (r.pem ca_cert)
    identity : m.identity ≡ record { cert = r.pem server_cert; key = r.serialize_pem server_key }
