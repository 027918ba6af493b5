-- ===== src/Actor/Handler/Retries.antt =====
-- The retry timers of relay-client/src/actor.rs: `RetryAck` and `RetryAsk`, each sent by the timer
-- that the one before it started.
use orb_relay_messages.Common.{
  ℕ, zero, suc, ◌+◌, ◌≡◌, refl, ap, ◌∙◌, true, false, Option, none, some, List, [], ◌∷◌, ℕ_discrete,
  min, arith,
}
use orb_relay_messages.Common.Outcome.{ok}
use orb_relay_messages.Common.HashMap
use orb_relay_messages.Amount.{Amount, is_zero, decrement}
use orb_relay_messages.Relay.{payload_into}
use orb_relay_messages.Client.{Seq, Sender, Duration, QoS, SendMessage, ClientOpts, relay_payload}
use orb_relay_messages.Actor.Defs.{State, Msg, Channel, Effect, ReplyKey-discrete}
use orb_relay_messages.Actor.Monad.{Up, Done}
use orb_relay_messages.Actor.Handler.{
  ask_retries, resend, retry_ack_found, retry_ask_found, handle_msg,
}

-- The message of the first timer that is started.
abbrev timer : List Effect → Option Msg
timer [] = none
timer (Effect.later d m ∷ es) = some m
timer (_ ∷ es) = timer es

abbrev sent : List Effect → ℕ
sent [] = 0
sent (Effect.to_tonic r ∷ es) = suc (sent es)
sent (_ ∷ es) = sent es

-- The first rounds of a chain of timers, each started by the message of the one before: how many
-- requests they send, and the state after them.
pub follow : ClientOpts → Up → ℕ → State → Option Msg → ℕ × State
follow opts up zero s msg = (0, s)
follow opts up (suc k) s none = (0, s)
follow opts up (suc k) s (some msg) =
    let d = handle_msg opts msg up s in
    let (n, s') = follow opts up k d.state (timer d.effects) in (sent d.effects + n, s')

abbrev one_round : ClientOpts → Up → ℕ → Done (Unit {0}) → ℕ × State
one_round opts up k d =
    let (n, s') = follow opts up k d.state (timer d.effects) in (sent d.effects + n, s')

none_left :
    (opts : ClientOpts) (up : Up) (s : State) (k : ℕ)
    → one_round opts up k (record { state = s; effects = []; result = ok tt }) ≡ (0, s)
unfolding follow
none_left opts up s zero = refl
none_left opts up s (suc k) = refl

-- The requests that a limit allows in `k` rounds: none under 0, one under 1, and without end under
-- any other.
abbrev pub retransmissions : Amount → ℕ → ℕ
retransmissions (Amount.val zero) k = 0
retransmissions (Amount.val (suc zero)) k = min k 1
retransmissions (Amount.val (suc (suc n))) k = k
retransmissions Amount.infinite k = k

-- A chain whose messages `next` resend `m` from one state, until none is left.
abbrev Resends : ClientOpts → Up → State → SendMessage → Seq → Duration → (Amount → Msg) → Type 0
Resends opts up s m seq d next =
    (left : Amount) → handle_msg opts (next left) up s ≡ resend opts m seq left d next up s

module _ (opts : ClientOpts) (up : Up) (s : State) (m : SendMessage) (seq : Seq) (d : Duration)
    (next : Amount → Msg) (tonic_up : up Channel.tonic ≡ true)
    (resends : Resends opts up s m seq d next) where
  exhausted :
      (left : Amount)
      → is_zero left ≡ true
      → handle_msg opts (next left) up s ≡ record { state = s; effects = []; result = ok tt }
  unfolding resend
  exhausted left z = resends left ∙ rw z

  resent :
      (left : Amount)
      → is_zero left ≡ false
      → handle_msg opts (next left) up s ≡ record {
        state = s;
        effects =
            Effect.to_tonic (payload_into (relay_payload opts m seq))
            ∷ Effect.later d (next (decrement opts.max_message_attempts))
            ∷ [];
        result = ok tt;
      }
  unfolding resend
  resent left z = resends left ∙ rw (z, tonic_up)

  stops :
      (k : ℕ) (left : Amount) → is_zero left ≡ true → follow opts up k s (some (next left)) ≡ (0, s)
  unfolding follow
  stops zero left z = refl
  stops (suc k) left z = ap (one_round opts up k) (exhausted left z) ∙ none_left opts up s k

  goes_on :
      (k : ℕ) (left : Amount)
      → is_zero left ≡ false
      → is_zero (decrement opts.max_message_attempts) ≡ false
      → follow opts up k s (some (next left)) ≡ (k, s)
  unfolding follow
  goes_on zero left z again = refl
  goes_on (suc k) left z again =
      ap (one_round opts up k) (resent left z)
      ∙ ap (λ (x : ℕ × State). (1 + x.0, x.1))
          (goes_on k (decrement opts.max_message_attempts) again again)
      ∙ ap (λ (n : ℕ). (n, s)) (omega arith)

  ends_after_one :
      (k : ℕ) (left : Amount)
      → is_zero left ≡ false
      → is_zero (decrement opts.max_message_attempts) ≡ true
      → follow opts up k s (some (next left)) ≡ (min k 1, s)
  unfolding follow
  ends_after_one zero left z last = ap (λ (n : ℕ). (n, s)) (omega arith)
  ends_after_one (suc k) left z last =
      ap (one_round opts up k) (resent left z)
      ∙ ap (λ (x : ℕ × State). (1 + x.0, x.1)) (stops k (decrement opts.max_message_attempts) last)
      ∙ ap (λ (n : ℕ). (n, s)) (omega arith)

  chain :
      (k : ℕ)
      → follow opts up k s (some (next opts.max_message_attempts))
        ≡ (retransmissions opts.max_message_attempts k, s)
  unfolding is_zero decrement
  chain k = go opts.max_message_attempts refl
    where
      go :
          (a : Amount)
          → opts.max_message_attempts ≡ a
          → follow opts up k s (some (next opts.max_message_attempts)) ≡ (retransmissions a k, s)
      go (Amount.val zero) e = stops k opts.max_message_attempts (rw e)
      go (Amount.val (suc zero)) e = ends_after_one k opts.max_message_attempts (rw e) (rw e)
      go (Amount.val (suc (suc n))) e =
          goes_on k opts.max_message_attempts (rw e) (rw e (ground arith))
      go Amount.infinite e = goes_on k opts.max_message_attempts (rw e) (rw e)

-- With an entry that stays pending, and the connection up, the first k rounds of the ack timer
-- send as many copies as `retransmissions` says of the configured limit: none under 0, one under 1,
-- and a copy every round under any limit from 2 on. The state stays as it is: whoever waits goes
-- on waiting.
pub ack_retries :
    (opts : ClientOpts) (up : Up) (s : State) (m : SendMessage) (tx : Sender) (seq : Seq) (k : ℕ)
    → up Channel.tonic ≡ true
    → HashMap.get ℕ_discrete seq s.pending_acks ≡ some (m, tx)
    → follow opts up k s (some (Msg.retry_ack seq opts.max_message_attempts))
      ≡ (retransmissions opts.max_message_attempts k, s)
unfolding handle_msg
ack_retries opts up s m tx seq k u e =
    chain opts up s m seq opts.ack_timeout (Msg.retry_ack seq) u (λ left. rw (e, retry_ack_found)) k

-- What `retransmissions` says of a question: as for an ack under `AtLeastOnce`, none under
-- `AtMostOnce`.
abbrev pub question_retransmissions : ClientOpts → QoS → ℕ → ℕ
question_retransmissions opts QoS.at_most_once k = 0
question_retransmissions opts QoS.at_least_once k = retransmissions opts.max_message_attempts k

-- The same of the reply timer of a question, whose first message allows what its QoS does: an
-- `AtMostOnce` question is never sent again.
pub ask_retries_lem :
    (opts : ClientOpts) (up : Up) (s : State) (m : SendMessage) (tx : Sender) (seq : Seq) (k : ℕ)
    → up Channel.tonic ≡ true
    → HashMap.get ReplyKey-discrete (m.target_id, seq) s.pending_replies ≡ some (m, tx)
    → follow opts up k s (some (Msg.retry_ask m.target_id seq (ask_retries opts m.qos)))
      ≡ (question_retransmissions opts m.qos k, s)
unfolding handle_msg
ask_retries_lem opts up s m tx seq k u e = go m.qos
  where
    next : Amount → Msg
    next = Msg.retry_ask m.target_id seq

    resends : Resends opts up s m seq opts.reply_timeout next
    resends left = rw (e, retry_ask_found)

    go :
        (q : QoS)
        → follow opts up k s (some (next (ask_retries opts q)))
          ≡ (question_retransmissions opts q k, s)
    go QoS.at_most_once =
        stops opts up s m seq opts.reply_timeout next u resends k (Amount.val 0) refl
    go QoS.at_least_once = chain opts up s m seq opts.reply_timeout next u resends k
