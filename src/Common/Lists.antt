-- ===== src/Common/Lists.antt =====
-- Lists measured by native numbers, a predicate on every element, and options.
use Prim.Native.Nat.{ℕ, suc, ◌+◌}
use mathlib.Core.Logic.{◌≢◌}
use mathlib.Core.Option.{none, some}
use mathlib.Core.Path.{◌≡◌, refl}
use mathlib.Core.List.{List, [], ◌∷◌, ◌++◌}
use native.Mathlib.Omega.{arith}

module _ {ℓ} {A : Type ℓ} where
  abbrev pub length : List A → ℕ
  length [] = 0
  length (x ∷ xs) = suc (length xs)

  pub length-append : (xs ys : List A) → length (xs ++ ys) ≡ length xs + length ys
  length-append [] ys = omega arith
  length-append (x ∷ xs) ys = omega (arith, length-append xs ys)

  -- Two splits of one list at the same place are the same split.
  pub append_inj :
      (xs ys us vs : List A) → length xs ≡ length ys → xs ++ us ≡ ys ++ vs → (xs ≡ ys) × (us ≡ vs)
  append_inj [] [] us vs h e = (refl, e)
  append_inj [] (y ∷ ys) us vs h e = absurd (omega arith)
  append_inj (x ∷ xs) [] us vs h e = absurd (omega arith)
  append_inj (x ∷ xs) (y ∷ ys) us vs h e =
      let (p, q) = append_inj xs ys us vs (omega arith) (cc) in (cc, q)

module _ {ℓ κ} {A : Type ℓ} (P : A → Type κ) where
  abbrev pub All : List A → Type κ
  All [] = Unit
  All (x ∷ xs) = P x × All xs

  pub All-append : (xs ys : List A) → All xs → All ys → All (xs ++ ys)
  All-append [] ys hx hy = hy
  All-append (x ∷ xs) ys hx hy = (hx.0, All-append xs ys hx.1 hy)

  -- What holds of all holds before, at, and behind each.
  pub All-split : (xs : List A) (x : A) (ys : List A) → All (xs ++ x ∷ ys) → All xs × (P x × All ys)
  All-split [] x ys h = (tt, h)
  All-split (_ ∷ xs) x ys h = let (before, rest) = All-split xs x ys h.1 in ((h.0, before), rest)

module _ {ℓ} {A : Type ℓ} where
  pub none≢some : {a : A} → none ≡ some a → ⊥
  none≢some e = cc

  pub some≢none : {a : A} → some a ≢ none
  some≢none e = cc
