-- ===== src/Common/Outcome.antt =====
-- What a fallible Rust function may do: return `Ok`, return `Err`, or panic (a failed `expect` or
-- `assert_eq!`, a `todo!`).
use mathlib.Core.Path.{◌≡◌, refl}
use mathlib.Core.Bool.{Bool, true, false}
use mathlib.Core.Option.{Option, none, some}

pub data Outcome {ℓ} (E A : Type ℓ) : Type ℓ where
  ok : A → Outcome E A
  err : E → Outcome E A
  panic : Outcome E A

-- `m?` followed by the rest.
infixl 5 ◌>>=◌ ◌>>◌
abbrev pub ◌>>=◌ {ℓ} : {E A B : Type ℓ} → Outcome E A → (A → Outcome E B) → Outcome E B
ok a >>= f = f a
err e >>= f = err e
panic >>= f = panic

abbrev pub ◌>>◌ {ℓ} : {E A B : Type ℓ} → Outcome E A → Outcome E B → Outcome E B
m >> k = m >>= λ _. k

-- `unwrap`.
abbrev pub unwrap {ℓ} : {E A : Type ℓ} → Option A → Outcome E A
unwrap none = panic
unwrap (some a) = ok a

-- `ensure!(b, e)`, or `if !b { return Err(e) }`.
abbrev pub ensure : {E : Type 0} → Bool → E → Outcome E (Unit {0})
ensure true e = ok tt
ensure false e = err e

abbrev pub ok_or {ℓ} : {E A : Type ℓ} → Option A → E → Outcome E A
ok_or none e = err e
ok_or (some a) e = ok a

-- `?` across error types: `From` applied to the error.
abbrev pub map_err {ℓ} : {E F A : Type ℓ} → (E → F) → Outcome E A → Outcome F A
map_err f (ok a) = ok a
map_err f (err e) = err (f e)
map_err f panic = panic

panic≢ok : {E B : Type 0} {b : B} → ◌≡◌ {A = Outcome E B} panic (ok b) → ⊥
panic≢ok e = cc

-- Code that returns has got a value from what it unwraps.
pub unwrapped :
    {E A B : Type 0} {f : A → Outcome E B} (o : Option A) {b : B}
    → (unwrap o >>= f) ≡ ok b
    → (a : A) × (o ≡ some a) × (f a ≡ ok b)
unwrapped none e = absurd (panic≢ok e)
unwrapped (some a) e = (a, refl, e)
