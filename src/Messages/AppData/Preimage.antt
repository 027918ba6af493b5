-- ===== src/Messages/AppData/Preimage.antt =====
-- The byte string that each hash format of `AppAuthenticatedData` stands for, written without a
-- hasher, and the data that `verify` can hash at all.
use orb_relay_messages.Common.{
  ◌<◌, ◌≡◌, ◌≢◌, ◌⊎◌, List, [], ◌∷◌, ◌++◌, ◌==◌, if◌then◌else◌, length, All,
}
use orb_relay_messages.Common.Bytes.{Bytes, Text, u32_mod, to_le_bytes}
use orb_relay_messages.Messages.AppData.{AppAuthenticatedData, current_version, pcp_version_default}

-- Each field behind its length.
unfoldable pub frames : List Text → Bytes
frames [] = []
frames (v ∷ vs) = to_le_bytes (length v) ++ (v ++ frames vs)

abbrev pub v1_fields : AppAuthenticatedData → List Text
v1_fields d = d.self_custody_public_key ∷ d.identity_commitment ∷ d.os ∷ d.os_version ∷ []

abbrev pub current_fields : AppAuthenticatedData → List Text
current_fields d =
    d.self_custody_public_key ∷ d.identity_commitment ∷ d.os ∷ d.os_version ∷ d.device_public_key
    ∷ []

abbrev pub versions : AppAuthenticatedData → Bytes
versions d = to_le_bytes d.pcp_version ++ to_le_bytes d.version

abbrev pub legacy_preimage : AppAuthenticatedData → Bytes
legacy_preimage d =
    ((d.identity_commitment ++ d.self_custody_public_key) ++ d.os_version)
    ++ d.os
    ++ (if d.pcp_version == pcp_version_default then [] else to_le_bytes d.pcp_version)

unfoldable pub preimage : AppAuthenticatedData → Bytes
preimage d =
    if d.version == current_version
    then frames (current_fields d) ++ versions d
    else if d.version == 1
    then frames (v1_fields d) ++ versions d
    else legacy_preimage d

abbrev pub Sized : List Text → Type 0
Sized = All (λ v. length v < u32_mod)

-- What the types of the Rust struct give (u32 numbers), and lengths that fit a u32.
pub record IsSized (d : AppAuthenticatedData) : Type 0 where
  pub fields : Sized (current_fields d)
  pub pcp : d.pcp_version < u32_mod
  pub version : d.version < u32_mod

pub v1_Sized : {d : AppAuthenticatedData} → IsSized d → Sized (v1_fields d)
v1_Sized s = let f = s.fields in (f.0, (f.1.0, (f.1.1.0, (f.1.1.1.0, tt))))

-- The versions with a hash format, each with the device key that it asks for.
abbrev pub IsHashable : AppAuthenticatedData → Type 0
IsHashable d =
    ((d.version ≡ current_version) × (d.device_public_key ≢ []))
    ⊎ (((d.version ≡ 1) ⊎ (d.version ≡ 0)) × (d.device_public_key ≡ []))
