-- ===== src/Messages/AppData/Forge.antt =====
-- What the legacy format leaves open in `AppAuthenticatedData::verify`.
use orb_relay_messages.Common.{
  ◌≤◌, ◌*◌, ap, sym, length-append, length-append, ℕ, ◌<◌, ◌≡◌, List, [], ◌∷◌, ◌++◌, All,
  All-append, append-nil, inr, refl, subst, length, arith,
}
use orb_relay_messages.Common.Bytes.{Bytes, Text, u32_mod, to_le_bytes}
use orb_relay_messages.Common.Outcome.{ok}
use orb_relay_messages.Messages.Blake3.{Blake3, IsStreaming}
use orb_relay_messages.Messages.AppData.{
  AppAuthenticatedData, current_version, pcp_version_default, hash, verify,
}
use orb_relay_messages.Messages.AppData.Preimage.{
  preimage, IsSized, frames, versions, current_fields,
}
use orb_relay_messages.Messages.AppData.Digest.{hash-ok_iff}
use orb_relay_messages.Messages.AppData.Verify.{verify-hash, verify-ok_iff}

-- Version 0 data around the bytes that another version hashes.
unfoldable pub forge : AppAuthenticatedData → AppAuthenticatedData
unfolding preimage
forge d = record {
  self_custody_public_key = [];
  identity_commitment = preimage d;
  os = [];
  os_version = [];
  pcp_version = pcp_version_default;
  version = 0;
  device_public_key = [];
}

preimage-forge : (d : AppAuthenticatedData) → preimage (forge d) ≡ preimage d
unfolding forge
preimage-forge d = simp append-nil

-- Bytes that are the UTF-8 of a `String` of ASCII characters.
abbrev pub IsAscii : Bytes → Type 0
IsAscii = All (λ x. x < 128)

-- A field as in data of the app: ASCII, and short.
abbrev pub IsShort : Text → Type 0
IsShort v = IsAscii v × (length v < 128)

to_le_bytes-IsAscii : (n : ℕ) → n < 128 → IsAscii (to_le_bytes n)
unfolding to_le_bytes
to_le_bytes-IsAscii n h = omega arith

frames-IsAscii : (vs : List Text) → All IsShort vs → IsAscii (frames vs)
unfolding frames
frames-IsAscii [] h = tt
frames-IsAscii (v ∷ vs) ((a, l), h) =
    All-append (λ x. x < 128) (to_le_bytes (length v)) _ (to_le_bytes-IsAscii (length v) l)
      (All-append (λ x. x < 128) v (frames vs) a (frames-IsAscii vs h))

preimage_current :
    (d : AppAuthenticatedData)
    → d.version ≡ current_version
    → preimage d ≡ frames (current_fields d) ++ versions d
unfolding preimage
preimage_current d v = rw v refl

preimage-IsAscii :
    (d : AppAuthenticatedData)
    → d.version ≡ current_version
    → All IsShort (current_fields d)
    → d.pcp_version < 128
    → IsAscii (preimage d)
preimage-IsAscii d v short small = subst IsAscii (sym (preimage_current d v)) (
    All-append (λ x. x < 128) (frames (current_fields d)) _
      (frames-IsAscii (current_fields d) short)
      (All-append (λ x. x < 128) (to_le_bytes d.pcp_version) _
        (to_le_bytes-IsAscii d.pcp_version small)
        (to_le_bytes-IsAscii d.version (omega (arith, v)))))

length-frames : (vs : List Text) → All IsShort vs → length (frames vs) ≤ 132 * length vs
unfolding frames to_le_bytes
length-frames [] h = omega arith
length-frames (v ∷ vs) ((a, l), h) = omega (arith, length-frames vs h, length-append v (frames vs))

length-preimage :
    (d : AppAuthenticatedData)
    → d.version ≡ current_version
    → All IsShort (current_fields d)
    → length (preimage d) < u32_mod
unfolding to_le_bytes
length-preimage d v short = omega (
  arith,
  ap length (preimage_current d v),
  length-frames (current_fields d) short,
  length-append (frames (current_fields d)) (versions d),
)

-- The downgrade that the legacy format leaves open. For current data whose fields are ASCII and
-- shorter than 128 bytes, with a PCP version below 128, the bytes that it hashes are ASCII too, so
-- that they can be a `String`; and its hash also verifies version 0 data that holds these bytes as
-- its identity commitment and nothing else.
pub verify-forge :
    (b : Blake3) (streaming : IsStreaming b) (d : AppAuthenticatedData) (n : ℕ) (h : Bytes)
    → IsSized d
    → All IsShort (current_fields d)
    → d.pcp_version < 128
    → 0 < n
    → hash b d n ≡ ok h
    → IsAscii (forge d).identity_commitment × (verify b (forge d) h ≡ ok tt)
unfolding forge
verify-forge b streaming d n h s short pcp p e =
    let (v, k, o) = (hash-ok_iff b streaming d n h s).0 e in
    let (z, _, q) = (verify-ok_iff b streaming d h s).0 (verify-hash b streaming d n h s p e) in
    let s' : IsSized (forge d) = record {
      fields = (
        omega arith,
        (length-preimage d v short, (omega arith, (omega arith, (omega arith, tt)))),
      );
      pcp = omega arith;
      version = omega arith;
    } in
    (
      preimage-IsAscii d v short pcp,
      (verify-ok_iff b streaming (forge d) h s').1
          (z, inr (inr refl, refl), rw (preimage-forge d) q),
    )
