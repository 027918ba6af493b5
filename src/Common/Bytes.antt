-- ===== src/Common/Bytes.antt =====
-- Byte strings. A Rust `String` is the list of its UTF-8 bytes, so that `len` and `as_bytes` are
-- read off the model directly.
use Prim.Native.Nat.{ℕ, ◌+◌, ◌*◌, ◌/◌, ◌%◌, ◌^◌, ◌<◌}
use Prim.Native.Char.{code}
use Prim.Native.String.{String}
use mathlib.Core.Path.{◌≡◌}
use mathlib.Core.List.{List, [], ◌∷◌}
use native.Mathlib.Decide.{ℕ_discrete}
use native.Mathlib.Omega.{arith}

abbrev pub Bytes : Type 0
Bytes = List ℕ

abbrev pub Text : Type 0
Text = Bytes

unfoldable pub Bytes-discrete : Discrete Bytes
Bytes-discrete = hlevel ℕ_discrete

-- An ASCII literal.
abbrev pub bytes : String → Bytes
bytes String.[] = []
bytes (String.◌∷◌ c s) = code c ∷ bytes s

abbrev pub u32_mod : ℕ
u32_mod = 2 ^ 32

abbrev pub u64_mod : ℕ
u64_mod = 2 ^ 64

-- `u32::to_le_bytes`.
unfoldable pub to_le_bytes : ℕ → Bytes
to_le_bytes n = (n % 256) ∷ (n / 256 % 256) ∷ (n / 65536 % 256) ∷ (n / 16777216 % 256) ∷ []

abbrev of_le : Bytes → ℕ
of_le [] = 0
of_le (b ∷ bs) = b + 256 * of_le bs

of_le-to_le_bytes : (n : ℕ) → n < u32_mod → of_le (to_le_bytes n) ≡ n
unfolding to_le_bytes
of_le-to_le_bytes n h = omega arith

-- The four bytes determine the number.
pub to_le_bytes_inj : (m n : ℕ) → m < u32_mod → n < u32_mod → to_le_bytes m ≡ to_le_bytes n → m ≡ n
to_le_bytes_inj m n hm hn e = rw (← of_le-to_le_bytes m hm, ← of_le-to_le_bytes n hn, e)
