-- ===== src/Actor/Run/Notified.antt =====
-- How often the actor of relay-client/src/actor.rs answers those who wait.
use orb_relay_messages.Common.{
  ℕ, ◌+◌, ◌≤◌, ◌≡◌, refl, ap, Bool, if◌then◌else◌, Option, none, some, List, arith, ℕ_discrete,
}
use orb_relay_messages.Common.HashMap
use orb_relay_messages.Common.HashMap.{HashMap, sum, sum_found, sum-remove-get, sum-insert-le}
use orb_relay_messages.Relay.{Entity, Any, ResponseMsg}
use orb_relay_messages.Client.{Seq, ClientId, Sender, RecvdRelayPayload, ClientOpts}
use orb_relay_messages.Actor.Defs.{State, Msg, Effect, ReplyKey-discrete}
use orb_relay_messages.Actor.Monad.{Up}
use orb_relay_messages.Actor.Handler.{
  handle_msg, handle_ack, handle_payload, handle_relay_payload, notify, deliver,
}
use orb_relay_messages.Actor.Keeps.{pure-Keeps, raise-Keeps, send_or-Keeps}
use orb_relay_messages.Actor.Handler.Keeps.{
  retry_ack-Keeps, retry_ask-Keeps, heartbeat-Keeps, start_heartbeat-Keeps,
  handle_relay_payload-Keeps, handle_ack-Keeps,
}
use orb_relay_messages.Actor.Pending.{Entry}
use orb_relay_messages.Actor.Run.{Session, run_loop}
use orb_relay_messages.Actor.Run.Amortized.{
  total, carried, total-carried, charged, Costs, quiet-Costs, IsMeasure, run_loop-Spends,
}

-- The channels that count: one of them, several, or all.
module _ (counts : Sender → Bool) where
  abbrev one : Sender → ℕ
  one tx = if counts tx then 1 else 0

  abbrev pub of_entry : Entry → ℕ
  of_entry e = one e.1

  abbrev pub acks_in : Effect → ℕ
  acks_in (Effect.to_ack tx) = one tx
  acks_in _ = 0

  abbrev pub waiting_acks : State → ℕ
  waiting_acks s = sum of_entry s.pending_acks

  abbrev pub ack_waits_of : Msg → ℕ
  ack_waits_of (Msg.wait_for_ack m tx k) = one tx
  ack_waits_of _ = 0

  abbrev pub replies_in : Effect → ℕ
  replies_in (Effect.to_reply tx r) = one tx
  replies_in _ = 0

  abbrev pub waiting_replies : State → ℕ
  waiting_replies s = sum of_entry s.pending_replies

  abbrev pub reply_waits_of : Msg → ℕ
  reply_waits_of (Msg.wait_for_reply m tx k) = one tx
  reply_waits_of _ = 0

  notified :
      (o : Option Entry) (up : Up) (s : State)
      → (total (carried ack_waits_of acks_in) (notify o up s).effects ≤ sum_found of_entry o)
        × ((notify o up s).state ≡ s)
  unfolding notify
  notified none up s = ground arith
  notified (some (m, tx)) up s = ground arith

  ack-Costs : (a : Seq) → Costs (carried ack_waits_of acks_in) waiting_acks 0 (handle_ack a)
  unfolding handle_ack
  ack-Costs a = record {
    at = λ up s.
        let found = HashMap.get ℕ_discrete a s.pending_acks in
        let left = record s { pending_acks = HashMap.remove ℕ_discrete a s.pending_acks } in
        let (es, same) = notified found up left in
        omega
          (arith, es, ap waiting_acks same, sum-remove-get of_entry ℕ_discrete a s.pending_acks);
  }

  delivered :
      (r : RecvdRelayPayload) (o : Option Entry) (up : Up) (s : State)
      → (total (carried reply_waits_of replies_in) (deliver r o up s).effects
          ≤ sum_found of_entry o)
        × ((deliver r o up s).state ≡ s)
  unfolding deliver
  delivered r none up s = ground arith
  delivered r (some (m, tx)) up s = ground arith

  payload-Costs :
      (p : Option Any) (e : Option Entity) (k : Seq)
      → Costs (carried reply_waits_of replies_in) waiting_replies 0 (handle_relay_payload p e k)
  unfolding handle_relay_payload handle_payload
  payload-Costs (some p) (some e) k = record {
    at = λ up s.
        let key : ClientId × Seq = (e.id, k) in
        let found = HashMap.get ReplyKey-discrete key s.pending_replies in
        let left = record s {
          pending_replies = HashMap.remove ReplyKey-discrete key s.pending_replies;
        } in
        let r : RecvdRelayPayload = record { from = e; payload = p.value; seq = k } in
        let (es, same) = delivered r found up left in
        omega (
          arith,
          es,
          ap waiting_replies same,
          sum-remove-get of_entry ReplyKey-discrete key s.pending_replies,
        );
  }
  payload-Costs none e k = quiet-Costs _ _ _ (λ n. pure-Keeps tt)
  payload-Costs (some p) none k = quiet-Costs _ _ _ (λ n. pure-Keeps tt)

  handle_msg-acks :
      (opts : ClientOpts) (m : Msg)
      → Costs (carried ack_waits_of acks_in) waiting_acks (ack_waits_of m) (handle_msg opts m)
  unfolding handle_msg
  handle_msg-acks opts (Msg.relay_response (ResponseMsg.ack a)) = ack-Costs a.seq
  handle_msg-acks opts (Msg.relay_response (ResponseMsg.payload p)) =
      quiet-Costs _ _ _ (λ n.
        handle_relay_payload-Keeps (λ s t w. w) (λ r. refl) (λ t r. refl) p.payload p.src p.seq)
  handle_msg-acks opts (Msg.relay_response (ResponseMsg.connect_response c)) =
      quiet-Costs _ _ _ (λ n. pure-Keeps tt)
  handle_msg-acks opts (Msg.send r) = quiet-Costs _ _ _ (λ n. send_or-Keeps _ _ _ refl)
  handle_msg-acks opts (Msg.wait_for_ack m tx k) = record {
    at = λ up s. omega (arith, sum-insert-le of_entry ℕ_discrete k (m, tx) s.pending_acks);
  }
  handle_msg-acks opts (Msg.wait_for_reply m tx k) = record { at = λ up s. omega arith }
  handle_msg-acks opts (Msg.retry_ack k a) =
      quiet-Costs _ _ _ (λ n. retry_ack-Keeps opts (λ m k. refl) k a (λ a. refl))
  handle_msg-acks opts (Msg.retry_ask c k a) =
      quiet-Costs _ _ _ (λ n. retry_ask-Keeps opts (λ m k. refl) c k a (λ a. refl))
  handle_msg-acks opts Msg.stop = quiet-Costs _ _ _ (λ n. raise-Keeps _)
  handle_msg-acks opts Msg.reconnect = quiet-Costs _ _ _ (λ n. raise-Keeps _)
  handle_msg-acks opts Msg.heartbeat = quiet-Costs _ _ _ (λ n. heartbeat-Keeps opts refl refl)

  pub acks-IsMeasure :
      (opts : ClientOpts) → IsMeasure (carried ack_waits_of acks_in) waiting_acks ack_waits_of opts
  acks-IsMeasure opts = record {
    dial = λ d. refl;
    open_stream = λ h. refl;
    to_tonic = λ r. refl;
    hand_on = λ r. refl;
    sleep = λ d. refl;
    starts = quiet-Costs _ _ _ (λ n. start_heartbeat-Keeps opts (λ s w. w) refl);
    handles = handle_msg-acks opts;
  }

  handle_msg-replies :
      (opts : ClientOpts) (m : Msg)
      → Costs
          (carried reply_waits_of replies_in)
          waiting_replies
          (reply_waits_of m)
          (handle_msg opts m)
  unfolding handle_msg
  handle_msg-replies opts (Msg.relay_response (ResponseMsg.ack a)) =
      quiet-Costs _ _ _ (λ n. handle_ack-Keeps (λ s t w. w) (λ t. refl) a.seq)
  handle_msg-replies opts (Msg.relay_response (ResponseMsg.payload p)) =
      payload-Costs p.payload p.src p.seq
  handle_msg-replies opts (Msg.relay_response (ResponseMsg.connect_response c)) =
      quiet-Costs _ _ _ (λ n. pure-Keeps tt)
  handle_msg-replies opts (Msg.send r) = quiet-Costs _ _ _ (λ n. send_or-Keeps _ _ _ refl)
  handle_msg-replies opts (Msg.wait_for_ack m tx k) = record { at = λ up s. omega arith }
  handle_msg-replies opts (Msg.wait_for_reply m tx k) = record {
    at = λ up s. omega (
      arith,
      sum-insert-le of_entry ReplyKey-discrete (m.target_id, k) (m, tx) s.pending_replies,
    );
  }
  handle_msg-replies opts (Msg.retry_ack k a) =
      quiet-Costs _ _ _ (λ n. retry_ack-Keeps opts (λ m k. refl) k a (λ a. refl))
  handle_msg-replies opts (Msg.retry_ask c k a) =
      quiet-Costs _ _ _ (λ n. retry_ask-Keeps opts (λ m k. refl) c k a (λ a. refl))
  handle_msg-replies opts Msg.stop = quiet-Costs _ _ _ (λ n. raise-Keeps _)
  handle_msg-replies opts Msg.reconnect = quiet-Costs _ _ _ (λ n. raise-Keeps _)
  handle_msg-replies opts Msg.heartbeat = quiet-Costs _ _ _ (λ n. heartbeat-Keeps opts refl refl)

  pub replies-IsMeasure :
      (opts : ClientOpts)
      → IsMeasure (carried reply_waits_of replies_in) waiting_replies reply_waits_of opts
  replies-IsMeasure opts = record {
    dial = λ d. refl;
    open_stream = λ h. refl;
    to_tonic = λ r. refl;
    hand_on = λ r. refl;
    sleep = λ d. refl;
    starts = quiet-Costs _ _ _ (λ n. start_heartbeat-Keeps opts (λ s w. w) refl);
    handles = handle_msg-replies opts;
  }

  -- Nobody is answered twice. Count one channel, several or all: over any rounds of any number of
  -- connections, the values on these ack channels and the senders that still wait on them are
  -- together no more than the `WaitForAck`s for them, and the senders that waited before; the same
  -- holds of replies and `WaitForReply`s. So a channel that is used for one wait gets one value at
  -- most, and the tables hold no more entries than waits were asked for.
  answers-le-waits :
      (opts : ClientOpts) (n : ℕ) (s : State) (xs : List Session)
      → let r = run_loop opts n s xs in
        (total acks_in r.effects + waiting_acks r.state ≤ charged ack_waits_of xs + waiting_acks s)
        × (total replies_in r.effects + waiting_replies r.state
            ≤ charged reply_waits_of xs + waiting_replies s)
  answers-le-waits opts n s xs =
      let r = run_loop opts n s xs in
      (
        omega (
          arith,
          total-carried ack_waits_of acks_in (λ d m. refl) (λ m. refl) r.effects,
          run_loop-Spends _ waiting_acks ack_waits_of (acks-IsMeasure opts) n s xs,
        ),
        omega (
          arith,
          total-carried reply_waits_of replies_in (λ d m. refl) (λ m. refl) r.effects,
          run_loop-Spends _ waiting_replies reply_waits_of (replies-IsMeasure opts) n s xs,
        ),
      )
