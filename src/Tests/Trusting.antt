-- ===== src/Tests/Trusting.antt =====
-- relay-client/src/tls.rs with a configuration that is the list of its certificates.
use orb_relay_messages.Common.{ℕ, ◌≡◌, refl, true, false, some, List, [], ◌∷◌, ◌++◌}
use orb_relay_messages.Common.Bytes.{Text, bytes}
use orb_relay_messages.Server.TlsMaterial.{Rcgen, TlsMaterial, new, ca_certificate}
use orb_relay_messages.Tls.{Transport, IsTrusting, client_tls_config, trusts_pinned}

abbrev listed : Transport
listed = record {
  ClientTlsConfig = List Text;
  Certificate = Text;
  new = [];
  ca_certificate = λ config cert. config ++ cert ∷ [];
  from_pem = λ pem. pem;
}

listed-IsTrusting : IsTrusting listed
listed-IsTrusting = record {
  roots = λ config. config;
  roots-new = refl;
  roots-ca_certificate = λ config cert. refl;
}

abbrev pinned : List Text
pinned = bytes "one" ∷ bytes "two" ∷ []

trusts_pinned_example :
    (listed-IsTrusting.roots (client_tls_config listed false pinned (bytes "test")) ≡ pinned)
    × (listed-IsTrusting.roots (client_tls_config listed true pinned (bytes "test"))
        ≡ bytes "test" ∷ [])
trusts_pinned_example = trusts_pinned listed listed-IsTrusting pinned (bytes "test")

-- A certificate is its subject's key and its issuer's, and a key is a number.
abbrev made_up : Rcgen
made_up = record {
  KeyPair = ℕ;
  CertificateParams = List Text;
  Certificate = ℕ × ℕ;
  generate = λ n. some n;
  params = λ names. some names;
  set_is_ca = λ names. names;
  self_signed = λ names key. some (key, key);
  signed_by = λ names key ca ca_key. some (key, ca_key);
  pem = λ c. c.0 ∷ c.1 ∷ [];
  serialize_pem = λ key. key ∷ [];
}

abbrev material : TlsMaterial listed
material = record {
  ca_certificate = 0 ∷ 0 ∷ [];
  identity = record { cert = 1 ∷ 0 ∷ []; key = 1 ∷ [] };
}
