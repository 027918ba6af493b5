-- ===== src/Common/HashMap.antt =====
-- `std::collections::HashMap`: an association list in which a key stands once. The order of the
-- entries is never read.
use Prim.Native.Nat.{ℕ, ◌+◌, ◌≤◌}
use mathlib.Core.Path.{◌≡◌, refl}
use mathlib.Core.Logic.{◌≢◌, ite, if_pos}
use mathlib.Core.Option.{Option, none, some}
use mathlib.Core.List.{List, [], ◌∷◌}
use native.Mathlib.Omega.{arith}

abbrev pub HashMap {ℓ} : Type ℓ → Type ℓ → Type ℓ
HashMap K V = List (K × V)

module _ {ℓ} {K V : Type ℓ} (dec : Discrete K) where
  unfoldable pub get : K → HashMap K V → Option V
  get k [] = none
  get k ((j, v) ∷ m) = ite (dec j k) (some v) (get k m)

  unfoldable pub remove : K → HashMap K V → HashMap K V
  remove k [] = []
  remove k ((j, v) ∷ m) = ite (dec j k) (remove k m) ((j, v) ∷ remove k m)

  unfoldable pub insert : K → V → HashMap K V → HashMap K V
  insert k v m = (k, v) ∷ remove k m

  pub get-remove_self : (k : K) (m : HashMap K V) → get k (remove k m) ≡ none
  unfolding get remove
  get-remove_self k [] = refl
  get-remove_self k ((j, v) ∷ m) = ground (arith, get-remove_self k m)

  pub get-remove_ne : (k j : K) (m : HashMap K V) → j ≢ k → get j (remove k m) ≡ get j m
  unfolding get remove
  get-remove_ne k j [] h = refl
  get-remove_ne k j ((i, v) ∷ m) h = ground (arith, get-remove_ne k j m)

  pub get-insert_self : (k : K) (v : V) (m : HashMap K V) → get k (insert k v m) ≡ some v
  unfolding get insert
  get-insert_self k v m = if_pos (dec k k) refl _ _

  pub get-insert_ne : (k j : K) (v : V) (m : HashMap K V) → j ≢ k → get j (insert k v m) ≡ get j m
  unfolding get insert
  get-insert_ne k j v m h = ground (arith, get-remove_ne k j m)

-- A sum over the values of a table.
module _ {V : Type 0} (w : V → ℕ) where
  abbrev pub sum_found : Option V → ℕ
  sum_found none = 0
  sum_found (some v) = w v

module _ {K V : Type 0} (w : V → ℕ) where
  abbrev pub sum : HashMap K V → ℕ
  sum [] = 0
  sum ((k, v) ∷ m) = w v + sum m

  module _ (dec : Discrete K) where
    sum-remove-le : (k : K) (m : HashMap K V) → sum (remove dec k m) ≤ sum m
    unfolding remove
    sum-remove-le k [] = omega arith
    sum-remove-le k ((j, v) ∷ m) = ground (arith, sum-remove-le k m)

    -- What is found is taken out of the sum.
    pub sum-remove-get :
        (k : K) (m : HashMap K V) → sum_found w (get dec k m) + sum (remove dec k m) ≤ sum m
    unfolding get remove
    sum-remove-get k [] = omega arith
    sum-remove-get k ((j, v) ∷ m) = ground (arith, sum-remove-get k m, sum-remove-le k m)

    pub sum-insert-le : (k : K) (v : V) (m : HashMap K V) → sum (insert dec k v m) ≤ w v + sum m
    unfolding insert
    sum-insert-le k v m = omega (arith, sum-remove-le k m)
