-- ===== src/Tests/Pairing.antt =====
-- rust/src/lib.rs on concrete announcements, with a digest that is the hashed bytes themselves.
use orb_relay_messages.Common.{
  All, ℕ, zero, suc, ◌≡◌, ◌≢◌, ◌↔◌, ◌+◌, ◌==◌, refl, ap, true, false, none, some, List, [], ◌∷◌,
  ◌++◌, length, append_assoc, arith, inl, inr, String,
}
use orb_relay_messages.Common.Bytes.{Bytes, Text, bytes, to_le_bytes}
use orb_relay_messages.Common.Outcome.{ok, err, panic}
use orb_relay_messages.Messages.Blake3.{Blake3, IsStreaming, digest}
use orb_relay_messages.Messages.AppData
use orb_relay_messages.Messages.AppData.{
  AppAuthenticatedData, HashError, VerifyError, current_version,
}
use orb_relay_messages.Messages.AppData.Preimage.{current_fields, preimage, IsSized, IsHashable}
use orb_relay_messages.Messages.AppData.Reference.{reference, verify-reference}
use orb_relay_messages.Messages.AppData.Verify.{
  verify-ok_iff, verify-hash, verify_collision, verify-ne-panic, verify_refuses,
}
use orb_relay_messages.Messages.AppData.Forge.{IsAscii, IsShort, forge, verify-forge}
use orb_relay_messages.Messages.OrbData
use orb_relay_messages.Messages.OrbData.{OrbAuthenticatedData, Signing, OrbValidationError}
use orb_relay_messages.Messages.OrbData.Verify.{orb_valid_iff, expected}
use orb_relay_messages.Messages.Announce
use orb_relay_messages.Messages.Announce.{AnnounceAppId, IpcpHpkePayload, Json, fmt}
use orb_relay_messages.Messages.Announce.Verify.{IsAccepted, IsAccepted-iff}
use orb_relay_messages.Messages.Announce.Redaction.{redact, fmt-redact}

abbrev fill : ℕ → Bytes → Bytes
fill zero x = []
fill (suc n) [] = 0 ∷ fill n []
fill (suc n) (b ∷ x) = b ∷ fill n x

length-fill : (n : ℕ) (x : Bytes) → length (fill n x) ≡ n
length-fill zero x = refl
length-fill (suc n) [] = ap suc (length-fill n [])
length-fill (suc n) (b ∷ x) = ap suc (length-fill n x)

abbrev pub plain : Blake3
plain = record { Hasher = Bytes; new = []; update = ◌++◌; finalize_xof = λ h n. fill n h }

plain-IsStreaming : IsStreaming plain
plain-IsStreaming = record {
  update_update = λ h x y. append_assoc h x y;
  length-finalize_xof = λ h n. length-fill n h;
}

-- A digest without content, as a hash with collisions.
abbrev blind : Blake3
blind = record plain { finalize_xof = λ h n. fill n [] }

blind-IsStreaming : IsStreaming blind
blind-IsStreaming = record {
  update_update = λ h x y. append_assoc h x y;
  length-finalize_xof = λ h n. length-fill n [];
}

abbrev data_of : ℕ → Text → AppAuthenticatedData
data_of version key = record {
  self_custody_public_key = bytes "pk_abc123";
  identity_commitment = bytes "ic_def456";
  os = bytes "iOS";
  os_version = bytes "18.0";
  pcp_version = 2;
  version = version;
  device_public_key = key;
}

abbrev current : AppAuthenticatedData
current = data_of 2 (bytes "dpk_ghi789")

current-IsSized : IsSized current
current-IsSized = record { fields = omega arith; pcp = omega arith; version = omega arith }

abbrev v1 : AppAuthenticatedData
v1 = data_of 1 []

v1-IsSized : IsSized v1
v1-IsSized = record { fields = omega arith; pcp = omega arith; version = omega arith }

abbrev current_hash : Bytes
current_hash = 9 ∷ 0 ∷ 0 ∷ 0 ∷ bytes "pk_abc123" ++ 9 ∷ 0 ∷ 0 ∷ []

verify-ok_iff_example : (AppData.verify plain current current_hash ≡ ok tt) ↔ (
    (current_hash ≢ [])
    × IsHashable current
    × (current_hash ≡ digest plain (preimage current) (length current_hash)))
verify-ok_iff_example = verify-ok_iff plain plain-IsStreaming current current_hash current-IsSized

zeros : Bytes
zeros = fill 16 []

blind-current : AppData.verify blind current zeros ≡ ok tt
unfolding zeros
blind-current = (verify-ok_iff blind blind-IsStreaming current zeros current-IsSized).1 (
  λ e. absurd (omega (arith, ap length e)),
  inl (refl, λ e. absurd (omega (arith, ap length e))),
  refl,
)

blind-v1 : AppData.verify blind v1 zeros ≡ ok tt
unfolding zeros
blind-v1 =
    (verify-ok_iff blind blind-IsStreaming v1 zeros v1-IsSized).1
      (λ e. absurd (omega (arith, ap length e)), inr (inl refl, refl), refl)

verify_collision_example :
    (preimage current ≢ preimage v1)
    × (digest blind (preimage current) (length zeros) ≡ digest blind (preimage v1) (length zeros))
verify_collision_example =
    verify_collision blind blind-IsStreaming current v1 zeros current-IsSized v1-IsSized
      (omega arith) (omega arith) blind-current blind-v1
      (λ e. absurd (omega (arith, ap (λ (d : AppAuthenticatedData). d.version) e)))

verify-ne-panic_example : AppData.verify plain (data_of 7 []) (1 ∷ []) ≢ panic
verify-ne-panic_example =
    verify-ne-panic plain plain-IsStreaming (data_of 7 []) (1 ∷ [])
      (record { fields = omega arith; pcp = omega arith; version = omega arith })

current-IsShort : All IsShort (current_fields current)
current-IsShort = omega arith

hashed : AppData.hash plain current 16 ≡ ok current_hash
unfolding AppData.hash to_le_bytes
hashed = refl

verify-forge_example :
    IsAscii (forge current).identity_commitment
    × (AppData.verify plain (forge current) current_hash ≡ ok tt)
verify-forge_example =
    verify-forge plain plain-IsStreaming current 16 current_hash current-IsSized current-IsShort
      (omega arith) (omega arith) hashed

verify_refuses_example :
    (AppData.verify plain (data_of 1 (bytes "dpk")) (1 ∷ [])
      ≡ err VerifyError.unbound_device_public_key)
    × (AppData.verify plain (data_of 1 (bytes "dpk")) [] ≡ err VerifyError.empty_hash)
verify_refuses_example =
    verify_refuses plain (data_of 1 (bytes "dpk")) (1 ∷ [])
      (λ e. absurd (omega (arith, ap length e))) (λ h. unhashable h)
  where
    unhashable : IsHashable (data_of 1 (bytes "dpk")) → ⊥
    unhashable (inl (v, _)) = absurd (omega arith)
    unhashable (inr (_, k)) = absurd (omega (arith, ap length k))

-- A signature that is as long as what it signs, and a key more.
abbrev lengthwise : Signing
lengthwise = record {
  VerifyingKey = ℕ;
  Signature = Bytes;
  verify_bytes = λ key x s. length s == length x + key;
  encode_to_vec = λ d. d.orb_nonce ++ d.request_nonce;
}

abbrev request_nonce : Bytes
request_nonce = fill 32 (7 ∷ 8 ∷ [])

abbrev orb_data : OrbAuthenticatedData
orb_data = record {
  version = 1;
  ipcp_encryption_public_key = 1 ∷ [];
  orb_nonce = fill 32 (1 ∷ 2 ∷ 3 ∷ []);
  request_nonce = request_nonce;
}

abbrev signature : Bytes
signature = fill 101 []

orb_valid_iff_example :
    (OrbData.verify lengthwise orb_data 5 signature (some request_nonce) ≡ ok tt) ↔ (
      (lengthwise.verify_bytes 5
          (OrbData.orb_data_signature_domain ++ lengthwise.encode_to_vec orb_data)
          signature
        ≡ true)
      × (orb_data.version ≡ OrbData.current_version)
      × (length orb_data.orb_nonce ≡ 32)
      × (orb_data.request_nonce ≡ expected (some request_nonce)))
orb_valid_iff_example = orb_valid_iff lengthwise 5 signature orb_data (some request_nonce)

orb_valid : OrbData.verify lengthwise orb_data 5 signature (some request_nonce) ≡ ok tt
orb_valid =
    (orb_valid_iff lengthwise 5 signature orb_data (some request_nonce)).1 (refl, refl, refl, refl)

abbrev payload : IpcpHpkePayload
payload = record { enc = 1 ∷ []; ciphertext = 2 ∷ [] }

abbrev announcement : AnnounceAppId
announcement = record {
  protocol_version = 4;
  heartbeat = true;
  app_data = some current;
  appointment_metadata = none;
  bypass_age_verification_token = bytes "secret";
  is_test = false;
  p2p_node_info = none;
  encrypted_ipcp_payload = some payload;
  orb_nonce = orb_data.orb_nonce;
}

IsAccepted-iff_example :
    (Announce.verify plain announcement current_hash (some orb_data) ≡ ok tt)
    ↔ IsAccepted plain announcement current_hash (some orb_data)
IsAccepted-iff_example = IsAccepted-iff plain announcement current_hash (some orb_data)

announcement_accepted : Announce.verify plain announcement current_hash (some orb_data) ≡ ok tt
unfolding AppData.hash to_le_bytes
announcement_accepted = (IsAccepted-iff plain announcement current_hash (some orb_data)).1 (
  (
    current,
    refl,
    verify-hash plain plain-IsStreaming current 16 current_hash current-IsSized (omega arith) refl,
  ),
  inr (omega arith),
  inr refl,
)

-- A printer that keeps the number of the fields only.
abbrev print : List (String × Json) → Text
print fields = length fields ∷ []

fmt-redact_example : fmt print announcement ≡ fmt print (redact announcement)
fmt-redact_example = fmt-redact print announcement

verify-reference_example : (AppData.verify plain current current_hash ≡ ok tt) ↔ (
    (current_hash ≢ [])
    × IsHashable current
    × (reference plain current (length current_hash) ≡ ok current_hash))
verify-reference_example = verify-reference plain current current_hash
