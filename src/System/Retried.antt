-- ===== src/System/Retried.antt =====
-- The retry timers of a client at work.
use orb_relay_messages.Common.{
  ℕ, suc, zero, ◌+◌, ◌-◌, ◌≤◌, ◌≡◌, refl, ap, sym, ite, true, false, if◌then◌else◌, Option, none,
  some, [], arith,
}
use orb_relay_messages.Common.HashMap
use orb_relay_messages.Common.HashMap.{
  HashMap, sum_found, get-remove_self, get-remove_ne, get-insert_self, get-insert_ne,
}
use orb_relay_messages.Amount.{Amount, is_zero, decrement, Allows}
use orb_relay_messages.Common.Outcome.{ok}
use orb_relay_messages.Client.{Seq, Duration, SendMessage, ClientOpts}
use orb_relay_messages.Actor.Defs.{State, Msg, Channel}
use orb_relay_messages.Actor.Monad.{Up}
use orb_relay_messages.Actor.Handler.{handle_msg, resend}
use orb_relay_messages.Actor.Pending.{Entry}
use orb_relay_messages.System.{IsAlive}
use orb_relay_messages.System.Upheld.{raised, MakesUp}

-- A limit of two or more, or none.
abbrev pub Persists : Amount → Type 0
Persists a = Allows a 1

-- A timer for the key that would send again counts as one.
abbrev pub retries_for : {K : Type 0} → Discrete K → K → K → Amount → ℕ
retries_for dec key k left = ite (dec k key) (if is_zero left then 0 else 1) 0

-- Who waits under a key, with the weight of the entry.
module _ {K : Type 0} (dec : Discrete K) (key : K) (w : Entry → ℕ) where
  abbrev pub found : HashMap K Entry → ℕ
  found t = sum_found w (HashMap.get dec key t)

  pub removed-le : (k : K) (t : HashMap K Entry) → found (HashMap.remove dec k t) ≤ found t
  removed-le k t = elim (dec key k) [
    | yes same ↦ rw same (omega (arith, ap (sum_found w) (get-remove_self dec k t)))
    | no other ↦ omega (arith, ap (sum_found w) (get-remove_ne dec k key t other))
  ]

  pub inserted-le :
      (k : K) (e : Entry) (t : HashMap K Entry)
      → found (HashMap.insert dec k e t) ≤ ite (dec k key) (w e) 0 + found t
  inserted-le k e t =
      elim (dec k key) as (λ d. found (HashMap.insert dec k e t) ≤ ite d (w e) 0 + found t) [
        | yes same ↦ omega (
          arith,
          ap (λ j. found (HashMap.insert dec j e t)) same,
          ap (sum_found w) (get-insert_self dec key e t),
        )
        | no other ↦
            omega (arith, ap (sum_found w) (get-insert_ne dec k key e t (λ p. other (sym p))))
      ]

Persists-left : (a : Amount) → Persists a → (is_zero a ≡ false) × (is_zero (decrement a) ≡ false)
unfolding is_zero decrement
Persists-left (Amount.val zero) h = absurd (omega arith)
Persists-left (Amount.val (suc zero)) h = absurd (omega arith)
Persists-left (Amount.val (suc (suc n))) h = ground arith
Persists-left Amount.infinite h = (refl, refl)

module _ {K : Type 0} (dec : Discrete K) (key : K) (w : Entry → ℕ) (table : State → HashMap K Entry)
    (charge : Msg → ℕ) (opts : ClientOpts) (persists : Persists opts.max_message_attempts) where
  abbrev pub stored : State → ℕ
  stored s = found dec key w (table s)

  -- The first timer would send again.
  pub first_retry : (k : K) → retries_for dec key k opts.max_message_attempts ≡ ite (dec k key) 1 0
  first_retry k = rw (Persists-left opts.max_message_attempts persists).0 refl

  nobody :
      (k : K) (left : Amount) (s : State)
      → HashMap.get dec k (table s) ≡ none
      → stored s ≤ stored s - retries_for dec key k left
  nobody k left s e =
      elim (dec k key) as (λ d. stored s ≤ stored s - ite d (if is_zero left then 0 else 1) 0) [
        | yes same ↦
            omega
              (arith, ap (sum_found w) e, ap (λ j. sum_found w (HashMap.get dec j (table s))) same)
        | no other ↦ omega arith
      ]

  again :
      (k : K) (left : Amount) (n : ℕ)
      → n
        ≤ (if is_zero left then 0 else retries_for dec key k (decrement opts.max_message_attempts))
          + (n - retries_for dec key k left)
  again k left n = ground (arith, (Persists-left opts.max_message_attempts persists).1)

  resend_raises :
      (m : SendMessage) (seq : Seq) (left : Amount) (d : Duration) (next : Amount → Msg) (up : Up)
      (s : State)
      → up Channel.tonic ≡ true
      → let r = resend opts m seq left d next up s in
        (r.state ≡ s)
        × (raised charge stored opts r.effects
            ≡ (if is_zero left then 0 else charge (next (decrement opts.max_message_attempts))))
  unfolding resend
  resend_raises m seq left d next up s u = ground arith

  -- A retry, by what it finds.
  pub retry-MakesUp :
      (k : K) (seq : Seq) (left : Amount) (d : Duration) (next : Amount → Msg) (up : Up) (s : State)
      → IsAlive up
      → ((a : Amount) → charge (next a) ≡ retries_for dec key k a)
      → (HashMap.get dec k (table s) ≡ none
          → handle_msg opts (next left) up s ≡ record { state = s; effects = []; result = ok tt })
      → ((e : Entry)
          → HashMap.get dec k (table s) ≡ some e
          → handle_msg opts (next left) up s ≡ resend opts e.0 seq left d next up s)
      → MakesUp charge stored opts (next left) up s
  retry-MakesUp k seq left d next up s l c h0 h1 = go (HashMap.get dec k (table s)) refl
    where
      go :
          (o : Option Entry)
          → HashMap.get dec k (table s) ≡ o
          → MakesUp charge stored opts (next left) up s
      go none e = rw (h0 e) (omega (arith, c left, nobody k left s e))
      go (some x) e = rw (h1 x e) (
          let (same, sent) = resend_raises x.0 seq left d next up s l.tonic in
          omega (
            arith,
            ap stored same,
            sent,
            again k left (stored s),
            c left,
            ap (λ x. if is_zero left then 0 else x) (c (decrement opts.max_message_attempts)),
          ))
