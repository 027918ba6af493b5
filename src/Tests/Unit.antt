-- ===== src/Tests/Unit.antt =====
-- The unit tests of rust/src/lib.rs: what each asserts of a hasher, and that they pass for the digest
-- of Tests.Pairing, which is the hashed bytes themselves.
use orb_relay_messages.Common.{
  ℕ, ◌-◌, ◌≡◌, ◌≢◌, refl, leb, if◌then◌else◌, false, none, some, [], ◌∷◌, ℕ_discrete,
}
use orb_relay_messages.Common.Bytes.{Bytes, bytes, to_le_bytes, Bytes-discrete}
use orb_relay_messages.Common.Outcome.{Outcome, ok, err}
use orb_relay_messages.Messages.Blake3.{Blake3}
use orb_relay_messages.Messages.AppData
use orb_relay_messages.Messages.AppData.{
  AppAuthenticatedData, HashError, VerifyError, current_version,
}
use orb_relay_messages.Messages.AppData.Reference.{
  reference_legacy, reference_v1, reference_current,
}
use orb_relay_messages.Messages.OrbData.{OrbAuthenticatedData}
use orb_relay_messages.Messages.Announce
use orb_relay_messages.Messages.Announce.{AnnounceAppId, IpcpHpkePayload}
use orb_relay_messages.Tests.Pairing.{plain}

abbrev pub app_data : ℕ → AppAuthenticatedData
app_data version = record {
  self_custody_public_key = bytes "pk_abc123";
  identity_commitment = bytes "ic_def456";
  os = bytes "iOS";
  os_version = bytes "18.0";
  pcp_version = 2;
  version = version;
  device_public_key = if leb 2 version then bytes "dpk_ghi789" else [];
}

-- `hash[0] ^= 0xff`, for a byte.
abbrev flip_first : Bytes → Bytes
flip_first [] = []
flip_first (x ∷ xs) = (255 - x) ∷ xs

-- `Default::default()` of the messages.
abbrev default_orb_data : OrbAuthenticatedData
default_orb_data = record {
  version = 0;
  ipcp_encryption_public_key = [];
  orb_nonce = [];
  request_nonce = [];
}

abbrev default_announce : AnnounceAppId
default_announce = record {
  protocol_version = 0;
  heartbeat = false;
  app_data = none;
  appointment_metadata = none;
  bypass_age_verification_token = [];
  is_test = false;
  p2p_node_info = none;
  encrypted_ipcp_payload = none;
  orb_nonce = [];
}

-- A result that is unwrapped, and what is asserted of it.
abbrev Unwrapped : {E A : Type 0} → Outcome E A → (A → Type 0) → Type 0
Unwrapped {E} {A} r asserts = (a : A) × (r ≡ ok a) × asserts a

-- A call that fails.
abbrev IsErr : {E A : Type 0} → Outcome E A → Type 0
IsErr {E} r = (e : E) × (r ≡ err e)

module _ (b : Blake3) where
  abbrev HashUsesCurrentFormat : Type 0
  HashUsesCurrentFormat =
      let d = app_data current_version in
      Unwrapped (AppData.hash b d 16)
        (λ h. (reference_current b {E = HashError} d 16 ≡ ok h) × (h ≢ reference_legacy b d 16))

  abbrev HashRejectsMissingVersion : Type 0
  HashRejectsMissingVersion = AppData.hash b (app_data 0) 16 ≡ err (HashError.wrong_version 0)

  abbrev HashRejectsMissingDevicePublicKey : Type 0
  HashRejectsMissingDevicePublicKey =
      AppData.hash b (record (app_data current_version) { device_public_key = [] }) 16
      ≡ err HashError.missing_device_public_key

  abbrev VerifyAcceptsCurrentHashAndRejectsBadHashes : Type 0
  VerifyAcceptsCurrentHashAndRejectsBadHashes =
      let d = app_data current_version in
      Unwrapped (AppData.hash b d 16) (λ h.
        (AppData.verify b d h ≡ ok tt)
        × (AppData.verify b d [] ≡ err VerifyError.empty_hash)
        × (AppData.verify b d (flip_first h) ≡ err VerifyError.mismatch))

  abbrev VerifyAcceptsLegacyHashOnlyWhenVersionIsMissing : Type 0
  VerifyAcceptsLegacyHashOnlyWhenVersionIsMissing =
      let hash = reference_legacy b (app_data 0) 16 in
      (AppData.verify b (app_data 0) hash ≡ ok tt)
      × IsErr (AppData.verify b (record (app_data 0) { version = current_version }) hash)

  abbrev VerifyAcceptsV1HashOnlyWhenVersionIsOne : Type 0
  VerifyAcceptsV1HashOnlyWhenVersionIsOne =
      Unwrapped (reference_v1 b {E = HashError} (app_data 1) 16) (λ hash.
        (AppData.verify b (app_data 1) hash ≡ ok tt)
        × IsErr (AppData.verify b (record (app_data 1) { version = current_version }) hash))

  -- The body of its loop, for a version and its hash.
  abbrev RejectsUnboundKey : ℕ → Bytes → Type 0
  RejectsUnboundKey version hash =
      let d = app_data version in
      (AppData.verify b d hash ≡ ok tt)
      × (AppData.verify b (record d { device_public_key = bytes "dpk_injected" }) hash
          ≡ err VerifyError.unbound_device_public_key)

  abbrev VerifyRejectsDevicePublicKeyUnboundByPreV2Hashes : Type 0
  VerifyRejectsDevicePublicKeyUnboundByPreV2Hashes =
      RejectsUnboundKey 0 (reference_legacy b (app_data 0) 16)
      × Unwrapped (reference_v1 b {E = HashError} (app_data 1) 16) (RejectsUnboundKey 1)

  abbrev LengthPrefixPreventsFieldBoundaryCollision : Type 0
  LengthPrefixPreventsFieldBoundaryCollision =
      let data_a = record (app_data current_version) {
        identity_commitment = bytes "abc";
        self_custody_public_key = bytes "def";
      } in
      let data_b = record data_a {
        identity_commitment = bytes "ab";
        self_custody_public_key = bytes "cdef";
      } in
      (reference_legacy b data_a 16 ≡ reference_legacy b data_b 16)
      × Unwrapped (AppData.hash b data_a 16)
          (λ x. Unwrapped (AppData.hash b data_b 16) (λ y. x ≢ y))

  abbrev AnnounceVerifyEnforcesOrbNonceFromProtocolV4 : Type 0
  AnnounceVerifyEnforcesOrbNonceFromProtocolV4 =
      let orb_data = record default_orb_data { orb_nonce = 1 ∷ 2 ∷ 3 ∷ [] } in
      let announce = λ (protocol_version : ℕ) (orb_nonce : Bytes). record default_announce {
        protocol_version = protocol_version;
        app_data = some (app_data current_version);
        orb_nonce = orb_nonce;
      } in
      let with_ipcp = λ (protocol_version : ℕ).
        record (announce protocol_version (1 ∷ 2 ∷ 3 ∷ [])) {
          encrypted_ipcp_payload = some (record { enc = []; ciphertext = [] });
        } in
      Unwrapped (AppData.hash b (app_data current_version) 16) (λ hash.
        (Announce.verify b (announce 4 (1 ∷ 2 ∷ 3 ∷ [])) hash (some orb_data) ≡ ok tt)
        × (Announce.verify b (announce 4 []) hash (some orb_data)
            ≡ err VerifyError.orb_nonce_mismatch)
        × (Announce.verify b (announce 4 []) hash none ≡ ok tt)
        × (Announce.verify b (announce 3 []) hash (some orb_data) ≡ ok tt)
        × (Announce.verify b (with_ipcp 3) hash (some orb_data)
            ≡ err VerifyError.unbound_ipcp_payload)
        × (Announce.verify b (with_ipcp 4) hash (some orb_data) ≡ ok tt)
        × (Announce.verify b (announce 4 (1 ∷ 2 ∷ 3 ∷ []))
              (0 ∷ 0 ∷ 0 ∷ 0 ∷ 0 ∷ 0 ∷ 0 ∷ 0 ∷ 0 ∷ 0 ∷ 0 ∷ 0 ∷ 0 ∷ 0 ∷ 0 ∷ 0 ∷ []) (some orb_data)
            ≡ err VerifyError.mismatch)
        × (Announce.verify b default_announce hash (some orb_data)
            ≡ err VerifyError.missing_app_data))

program : Unit {0}
unfolding Bytes-discrete ℕ_discrete AppData.hash AppData.verify reference_legacy reference_v1
    reference_current to_le_bytes Announce.verify
program = tt

hash_tests_pass :
    HashUsesCurrentFormat plain
    × HashRejectsMissingVersion plain
    × HashRejectsMissingDevicePublicKey plain
unfolding program
hash_tests_pass = ((_, refl, (refl, λ e. cc)), refl, refl)

verify_tests_pass :
    VerifyAcceptsCurrentHashAndRejectsBadHashes plain
    × VerifyAcceptsLegacyHashOnlyWhenVersionIsMissing plain
    × VerifyAcceptsV1HashOnlyWhenVersionIsOne plain
    × VerifyRejectsDevicePublicKeyUnboundByPreV2Hashes plain
unfolding program
verify_tests_pass = (
  (_, refl, (refl, refl, refl)),
  (refl, (_, refl)),
  (_, refl, (refl, (_, refl))),
  ((refl, refl), (_, refl, (refl, refl))),
)

boundary_test_passes : LengthPrefixPreventsFieldBoundaryCollision plain
unfolding program
boundary_test_passes = (refl, (_, refl, (_, refl, λ e. cc)))

announce_test_passes : AnnounceVerifyEnforcesOrbNonceFromProtocolV4 plain
unfolding program
announce_test_passes = (_, refl, (refl, refl, refl, refl, refl, refl, refl, refl))
