-- ===== src/System/Once.antt =====
-- How often a client at work answers the channel of a call.
use orb_relay_messages.Common.{
  ℕ, ◌+◌, ◌≤◌, ◌≡◌, refl, ap, Bool, if◌then◌else◌, ltb, List, ◌∷◌, ◌==◌, arith, ℕ_discrete,
}
use orb_relay_messages.Common.HashMap.{HashMap, sum, sum_found, sum-remove-get}
use orb_relay_messages.Relay.{ResponseMsg}
use orb_relay_messages.Client.{Seq, Duration, Sender, SendMessage, ClientOpts}
use orb_relay_messages.Actor.Defs.{Msg, Effect, ReplyKey-discrete}
use orb_relay_messages.Actor.Pending.{Entry, Unused}
use orb_relay_messages.Actor.Run.Amortized.{total}
use orb_relay_messages.Actor.Run.Notified.{
  of_entry, acks_in, waiting_acks, ack_waits_of, acks-IsMeasure, replies_in, waiting_replies,
  reply_waits_of, replies-IsMeasure,
}
use orb_relay_messages.System.{System, Reach}
use orb_relay_messages.System.Measured.{charges, IsBudget, Reach-Holds}
use orb_relay_messages.System.Issued.{IsCheap, issued-le}

module _ (tx : Sender) where
  abbrev pub is_tx : Sender → Bool
  is_tx k = k == tx

  -- One value for a channel that a call has made.
  abbrev pub once : Sender → ℕ
  once next = if ltb tx next then 1 else 0

  abbrev made_now : Sender → ℕ
  made_now k = if is_tx k then 1 else 0

  made_once : (k : Sender) → made_now k + once k ≤ once (k + 1)
  made_once k = ground arith

  -- A charge for waits on `tx` alone pays for the value that it gets.
  once-IsBudget :
      {charge : Msg → ℕ} {out : Effect → ℕ}
      → ((d : Duration) (m : Msg) → out (Effect.later d m) ≡ 0)
      → ((m : Msg) → out (Effect.to_actor m) ≡ 0)
      → ((r : ResponseMsg) → charge (Msg.relay_response r) ≡ 0)
      → ((k : Sender) → IsCheap charge k (made_now k))
      → IsBudget charge out once
  once-IsBudget l a r cheap = record {
    later_free = l;
    to_actor_free = a;
    response_free = r;
    call_paid = λ c k call. omega (arith, made_once k, issued-le (cheap k) c call);
  }

  acks-IsBudget : IsBudget (ack_waits_of is_tx) (acks_in is_tx) once
  acks-IsBudget =
      once-IsBudget (λ d m. refl) (λ m. refl) (λ r. refl)
        λ k. record {
          send = λ r. refl;
          stop = refl;
          reconnect = refl;
          wait_for_ack = λ m n. omega arith;
          wait_for_reply = λ m n. omega arith;
        }

  replies-IsBudget : IsBudget (reply_waits_of is_tx) (replies_in is_tx) once
  replies-IsBudget =
      once-IsBudget (λ d m. refl) (λ m. refl) (λ r. refl)
        λ k. record {
          send = λ r. refl;
          stop = refl;
          reconnect = refl;
          wait_for_ack = λ m n. omega arith;
          wait_for_reply = λ m n. omega arith;
        }

  -- What has been answered, what waits, and the waits on their way.
  acks_in_all :
      (opts : ClientOpts) (s : System)
      → Reach opts s
      → total (acks_in is_tx) s.effects
          + waiting_acks is_tx s.state
          + charges (ack_waits_of is_tx) s.channel
        ≤ once s.next
  acks_in_all opts s r =
      omega (arith, Reach-Holds opts (acks-IsMeasure is_tx opts) acks-IsBudget (omega arith) r)

  replies_in_all :
      (opts : ClientOpts) (s : System)
      → Reach opts s
      → total (replies_in is_tx) s.effects
          + waiting_replies is_tx s.state
          + charges (reply_waits_of is_tx) s.channel
        ≤ once s.next
  replies_in_all opts s r =
      omega
        (arith, Reach-Holds opts (replies-IsMeasure is_tx opts) replies-IsBudget (omega arith) r)

  -- Every call is answered once at most. At every time, whatever the client, the server, the timers
  -- and the connections did in whatever order: the ack values that a channel got and the senders
  -- that wait on it in `pending_acks` are together one at most, and none if no call has made the
  -- channel yet; the same holds of the replies and `pending_replies`.
  pub answered_once :
      (opts : ClientOpts) (s : System)
      → Reach opts s
      → (total (acks_in is_tx) s.effects + waiting_acks is_tx s.state ≤ once s.next)
        × (total (replies_in is_tx) s.effects + waiting_replies is_tx s.state ≤ once s.next)
  answered_once opts s r =
      (omega (arith, acks_in_all opts s r), omega (arith, replies_in_all opts s r))

  sum-Unused :
      {K : Type 0} (dec : Discrete K) (t : HashMap K Entry)
      → sum (of_entry is_tx) t ≡ 0
      → Unused dec tx t
  sum-Unused dec t z k m e =
      ground (arith, ap (sum_found (of_entry is_tx)) e, sum-remove-get (of_entry is_tx) dec k t)

  -- The channel that a wait comes with is fresh: it got nothing yet, and nobody else waits on it.
  pub first_wait_for_ack :
      (opts : ClientOpts) (s : System) (m : SendMessage) (k : Seq) (ms : List Msg)
      → Reach opts s
      → s.channel ≡ Msg.wait_for_ack m tx k ∷ ms
      → Unused ℕ_discrete tx s.state.pending_acks × (total (acks_in is_tx) s.effects ≡ 0)
  first_wait_for_ack opts s m k ms r e =
      let all = acks_in_all opts s r in
      let first = ap (charges (ack_waits_of is_tx)) e in
      (
        sum-Unused ℕ_discrete s.state.pending_acks (ground (arith, all, first)),
        ground (arith, all, first),
      )

  pub first_wait_for_reply :
      (opts : ClientOpts) (s : System) (m : SendMessage) (k : Seq) (ms : List Msg)
      → Reach opts s
      → s.channel ≡ Msg.wait_for_reply m tx k ∷ ms
      → Unused ReplyKey-discrete tx s.state.pending_replies
        × (total (replies_in is_tx) s.effects ≡ 0)
  first_wait_for_reply opts s m k ms r e =
      let all = replies_in_all opts s r in
      let first = ap (charges (reply_waits_of is_tx)) e in
      (
        sum-Unused ReplyKey-discrete s.state.pending_replies (ground (arith, all, first)),
        ground (arith, all, first),
      )
