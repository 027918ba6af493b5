-- ===== src/Amount.antt =====
-- relay-client/src/amount.rs: a count that may be infinite.
use orb_relay_messages.Common.{
  ℕ, zero, suc, ◌-◌, ◌<◌, ◌≡◌, ◌↔◌, Bool, true, false, ◌==◌, if◌then◌else◌, Option, none, some,
  compare, Ordering, arith, ltb,
}

pub data Amount : Type 0 where
  val : ℕ → Amount
  infinite : Amount

-- `PartialEq<u64>`.
unfoldable pub eq : Amount → ℕ → Bool
eq (Amount.val v) n = v == n
eq Amount.infinite n = false

-- `PartialOrd<u64>`.
unfoldable pub partial_cmp : Amount → ℕ → Option Ordering
partial_cmp (Amount.val v) n = some (compare v n)
partial_cmp Amount.infinite n = some Ordering.gt

-- `a <= n`, which the trait derives from `partial_cmp`.
unfoldable pub le : Amount → ℕ → Bool
unfolding partial_cmp
le a n = elim (partial_cmp a n) [
  | none ↦ false
  | some o ↦ elim o [ Ordering.gt ↦ false | _ ↦ true ]
]

unfoldable pub is_zero : Amount → Bool
is_zero (Amount.val zero) = true
is_zero (Amount.val (suc n)) = false
is_zero Amount.infinite = false

unfoldable pub decrement : Amount → Amount
decrement (Amount.val v) = if ltb 0 v then Amount.val (v - 1) else Amount.val v
decrement Amount.infinite = Amount.infinite

-- The attempts that an amount allows: those below it.
abbrev pub Allows : Amount → ℕ → Type 0
Allows (Amount.val v) n = n < v
Allows Amount.infinite n = Unit {0}

-- `<=` and `is_zero` agree with that reading, and `decrement` takes one attempt away.
pub Amount-Allows :
    (a : Amount) (n : ℕ)
    → ((le a n ≡ false) ↔ Allows a n)
      × ((is_zero a ≡ false) ↔ Allows a 0)
      × (Allows (decrement a) n ↔ Allows a (suc n))
unfolding le is_zero decrement
Amount-Allows (Amount.val zero) n = ground arith
Amount-Allows (Amount.val (suc v)) n = ground arith
Amount-Allows Amount.infinite n = ground arith
