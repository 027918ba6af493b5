-- ===== src/Tls.antt =====
-- relay-client/src/tls.rs: the certificates that the client trusts. The pinned certificates, the
-- certificate of the test server and tonic's configuration are parameters.
use orb_relay_messages.Common.{
  ◌≡◌, sym, ap, ◌∙◌, Bool, true, false, if◌then◌else◌, List, [], ◌∷◌, ◌++◌, map, append-nil,
  append_assoc,
}
use orb_relay_messages.Common.Bytes.{Text}

-- `ClientTlsConfig` and `Certificate` of tonic::transport.
pub record Transport : Type 1 where
  pub ClientTlsConfig : Type 0
  pub Certificate : Type 0
  pub new : ClientTlsConfig
  pub ca_certificate : ClientTlsConfig → Certificate → ClientTlsConfig
  pub from_pem : Text → Certificate

-- What tonic documents: a new configuration trusts nobody, and `ca_certificate` adds one certificate
-- against which the server's is verified.
pub record IsTrusting (t : Transport) : Type 0 where
  pub roots : t.ClientTlsConfig → List t.Certificate
  pub roots-new : roots t.new ≡ []
  pub roots-ca_certificate :
      (config : t.ClientTlsConfig) (cert : t.Certificate)
      → roots (t.ca_certificate config cert) ≡ roots config ++ cert ∷ []

module _ (t : Transport) where
  open t use {ClientTlsConfig, Certificate, new, ca_certificate, from_pem}

  -- The `fold` over `all_pem_certs()`.
  unfoldable pub add_all : ClientTlsConfig → List Text → ClientTlsConfig
  add_all config [] = config
  add_all config (cert_pem ∷ rest) = add_all (ca_certificate config (from_pem cert_pem)) rest

  -- `testing` is the feature of that name, `test_ca` the certificate of the test server.
  unfoldable pub client_tls_config : Bool → List Text → Certificate → ClientTlsConfig
  unfolding add_all
  client_tls_config testing all_pem_certs test_ca =
      if testing then ca_certificate new test_ca else add_all new all_pem_certs

  module _ (trust : IsTrusting t) where
    roots-add_all :
        (config : ClientTlsConfig) (certs : List Text)
        → trust.roots (add_all config certs) ≡ trust.roots config ++ map from_pem certs
    unfolding add_all
    roots-add_all config [] = sym (append-nil (trust.roots config))
    roots-add_all config (c ∷ cs) =
        roots-add_all (ca_certificate config (from_pem c)) cs
        ∙ ap (λ r. r ++ map from_pem cs) (trust.roots-ca_certificate config (from_pem c))
        ∙ append_assoc (trust.roots config) (from_pem c ∷ []) (map from_pem cs)

    -- The client trusts exactly the pinned certificates, in order, and the certificate of the test
    -- server exactly in a build with the feature `testing`, which trusts no other.
    pub trusts_pinned :
        (certs : List Text) (test_ca : Certificate)
        → (trust.roots (client_tls_config false certs test_ca) ≡ map from_pem certs)
          × (trust.roots (client_tls_config true certs test_ca) ≡ test_ca ∷ [])
    unfolding client_tls_config
    trusts_pinned certs test_ca = (
      roots-add_all new certs ∙ ap (λ r. r ++ map from_pem certs) trust.roots-new,
      trust.roots-ca_certificate new test_ca ∙ ap (λ r. r ++ test_ca ∷ []) trust.roots-new,
    )
