-- ===== src/Messages/Blake3.antt =====
-- The `blake3` crate as rust/src/lib.rs uses it: `Hasher::new`, `update`, and `finalize_xof().fill`
-- into a buffer of `n` bytes.
use orb_relay_messages.Common.{ℕ, ◌≡◌, ◌++◌, length}
use orb_relay_messages.Common.Bytes.{Bytes}

pub record Blake3 : Type 1 where
  pub Hasher : Type 0
  pub new : Hasher
  pub update : Hasher → Bytes → Hasher
  pub finalize_xof : Hasher → ℕ → Bytes

-- What the crate documents: a hasher sees the concatenation of its updates, and `fill` fills the
-- buffer.
pub record IsStreaming (b : Blake3) : Type 0 where
  pub update_update : (h : b.Hasher) (x y : Bytes) → b.update (b.update h x) y ≡ b.update h (x ++ y)
  pub length-finalize_xof : (h : b.Hasher) (n : ℕ) → length (b.finalize_xof h n) ≡ n

-- The digest of a byte string.
abbrev pub digest : Blake3 → Bytes → ℕ → Bytes
digest b x n = b.finalize_xof (b.update b.new x) n
