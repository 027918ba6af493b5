-- ===== src/Actor/Handler/Keeps.antt =====
-- The rules of Actor/Keeps for the handlers of relay-client/src/actor.rs.
use orb_relay_messages.Common.{true, ℕ_discrete, Option, none, some}
use orb_relay_messages.Common.HashMap
use orb_relay_messages.Common.HashMap.{HashMap}
use orb_relay_messages.Amount.{Amount, is_zero}
use orb_relay_messages.Relay.{RelayConnectRequest, Entity, Any, payload_into, heartbeat_into}
use orb_relay_messages.Client.{
  ClientId, Seq, Sender, Duration, SendMessage, RecvdRelayPayload, ClientOpts, relay_payload,
}
use orb_relay_messages.Actor.Defs.{State, Msg, Effect, ReplyKey-discrete}
use orb_relay_messages.Actor.Handler.{
  ask_retries, ResponseMsg, deliver, handle_payload, handle_relay_payload, notify, handle_ack,
  resend, retry_ack_found, retry_ask_found, handle_msg,
}
use orb_relay_messages.Actor.Session.{start_heartbeat}
use orb_relay_messages.Actor.Keeps.{
  raise-Keeps, later-Keeps, Keeps, bind-Keeps, pure-Keeps, gets-Keeps, modify-Keeps, emit-Keeps,
  if-Keeps, send_or-Keeps, send_ignoring-Keeps,
}

module _ {P : State → Type 0} {Q : Effect → Type 0} where
  module _ (opts : ClientOpts)
      (tonic : (m : SendMessage) (seq : Seq)
        → Q (Effect.to_tonic (payload_into (relay_payload opts m seq)))) where
    resend-Keeps :
        (m : SendMessage) (seq : Seq) (left : Amount) (d : Duration) (next : Amount → Msg)
        → ((a : Amount) → Q (Effect.later d (next a)))
        → Keeps P Q (resend opts m seq left d next)
    unfolding resend
    resend-Keeps m seq left d next timer =
        if-Keeps (is_zero left) (pure-Keeps tt)
          (bind-Keeps (send_or-Keeps _ _ _ (tonic m seq)) (λ _. emit-Keeps _ (timer _)))

    retry_ack_found-Keeps :
        (seq : Seq) (left : Amount) (o : Option (SendMessage × Sender))
        → ((a : Amount) → Q (Effect.later opts.ack_timeout (Msg.retry_ack seq a)))
        → Keeps P Q (retry_ack_found opts seq left o)
    unfolding retry_ack_found
    retry_ack_found-Keeps seq left none timer = pure-Keeps tt
    retry_ack_found-Keeps seq left (some (m, _)) timer =
        resend-Keeps m seq left opts.ack_timeout (Msg.retry_ack seq) timer

    retry_ask_found-Keeps :
        (c : ClientId) (seq : Seq) (left : Amount) (o : Option (SendMessage × Sender))
        → ((a : Amount) → Q (Effect.later opts.reply_timeout (Msg.retry_ask c seq a)))
        → Keeps P Q (retry_ask_found opts c seq left o)
    unfolding retry_ask_found
    retry_ask_found-Keeps c seq left none timer = pure-Keeps tt
    retry_ask_found-Keeps c seq left (some (m, _)) timer =
        resend-Keeps m seq left opts.reply_timeout (Msg.retry_ask c seq) timer

    pub retry_ack-Keeps :
        (seq : Seq) (left : Amount)
        → ((a : Amount) → Q (Effect.later opts.ack_timeout (Msg.retry_ack seq a)))
        → Keeps P Q (handle_msg opts (Msg.retry_ack seq left))
    unfolding handle_msg
    retry_ack-Keeps seq left timer =
        bind-Keeps (gets-Keeps _) (λ o. retry_ack_found-Keeps seq left o timer)

    pub retry_ask-Keeps :
        (c : ClientId) (seq : Seq) (left : Amount)
        → ((a : Amount) → Q (Effect.later opts.reply_timeout (Msg.retry_ask c seq a)))
        → Keeps P Q (handle_msg opts (Msg.retry_ask c seq left))
    unfolding handle_msg
    retry_ask-Keeps c seq left timer =
        bind-Keeps (gets-Keeps _) (λ o. retry_ask_found-Keeps c seq left o timer)

  pub heartbeat-Keeps :
      (opts : ClientOpts)
      → Q (Effect.to_tonic (heartbeat_into (record { seq = 0 })))
      → Q (Effect.later opts.heartbeat Msg.heartbeat)
      → Keeps P Q (handle_msg opts Msg.heartbeat)
  unfolding handle_msg
  heartbeat-Keeps opts beat timer = bind-Keeps (send_or-Keeps _ _ _ beat) (λ _. emit-Keeps _ timer)

  -- A property that does not look at the flag.
  pub start_heartbeat-Keeps :
      (opts : ClientOpts)
      → ((s : State) → P s → P (record s { heartbeat_started = true }))
      → Q (Effect.later opts.heartbeat Msg.heartbeat)
      → Keeps P Q (start_heartbeat opts)
  unfolding start_heartbeat
  start_heartbeat-Keeps opts flag q = bind-Keeps (gets-Keeps _) λ started.
      if-Keeps started (pure-Keeps tt) (bind-Keeps (modify-Keeps _ flag) (λ _. emit-Keeps _ q))

  -- A property that pending replies may leave.
  module _
      (replies : (s : State) (k : ClientId × Seq)
        → P s
        → P (record s { pending_replies = HashMap.remove ReplyKey-discrete k s.pending_replies }))
      (client : (r : RecvdRelayPayload) → Q (Effect.to_client r))
      (reply : (tx : Sender) (r : RecvdRelayPayload) → Q (Effect.to_reply tx r)) where
    deliver-Keeps :
        (r : RecvdRelayPayload) (o : Option (SendMessage × Sender)) → Keeps P Q (deliver r o)
    unfolding deliver
    deliver-Keeps r none = send_or-Keeps _ _ _ (client r)
    deliver-Keeps r (some (_, tx)) = send_ignoring-Keeps _ _ (reply tx r)

    handle_payload-Keeps : (r : RecvdRelayPayload) (seq : Seq) → Keeps P Q (handle_payload r seq)
    unfolding handle_payload
    handle_payload-Keeps r seq = bind-Keeps (gets-Keeps _) λ found.
        bind-Keeps (modify-Keeps _ (λ s. replies s (r.from.id, seq))) (λ _. deliver-Keeps r found)

    pub handle_relay_payload-Keeps :
        (p : Option Any) (e : Option Entity) (seq : Seq) → Keeps P Q (handle_relay_payload p e seq)
    unfolding handle_relay_payload
    handle_relay_payload-Keeps (some p) (some e) seq = handle_payload-Keeps _ seq
    handle_relay_payload-Keeps _ _ seq = pure-Keeps tt

  -- A property that pending acks may leave.
  module _
      (acks : (s : State) (k : Seq)
        → P s
        → P (record s { pending_acks = HashMap.remove ℕ_discrete k s.pending_acks }))
      (ack : (tx : Sender) → Q (Effect.to_ack tx)) where
    notify-Keeps : (o : Option (SendMessage × Sender)) → Keeps P Q (notify o)
    unfolding notify
    notify-Keeps none = pure-Keeps tt
    notify-Keeps (some (_, tx)) = send_ignoring-Keeps _ _ (ack tx)

    pub handle_ack-Keeps : (seq : Seq) → Keeps P Q (handle_ack seq)
    unfolding handle_ack
    handle_ack-Keeps seq =
        bind-Keeps (gets-Keeps _)
          λ found. bind-Keeps (modify-Keeps _ (λ s. acks s seq)) (λ _. notify-Keeps found)

abbrev pub AnyState : State → Type 0
AnyState s = Unit {0}

-- What the effects of a message are.
module _ {Q : Effect → Type 0} (opts : ClientOpts)
    (tonic : (r : RelayConnectRequest) → Q (Effect.to_tonic r))
    (client : (r : RecvdRelayPayload) → Q (Effect.to_client r))
    (reply : (tx : Sender) (r : RecvdRelayPayload) → Q (Effect.to_reply tx r))
    (ack : (tx : Sender) → Q (Effect.to_ack tx))
    (timer : (d : Duration) (m : Msg) → Q (Effect.later d m)) where
  handle_response-Keeps :
      (r : ResponseMsg) → Keeps AnyState Q (handle_msg opts (Msg.relay_response r))
  unfolding handle_msg
  handle_response-Keeps (ResponseMsg.ack a) = handle_ack-Keeps (λ s k p. p) ack a.seq
  handle_response-Keeps (ResponseMsg.payload p) =
      handle_relay_payload-Keeps (λ s k p. p) client reply p.payload p.src p.seq
  handle_response-Keeps (ResponseMsg.connect_response c) = pure-Keeps tt

  pub handle_msg-Keeps : (m : Msg) → Keeps AnyState Q (handle_msg opts m)
  unfolding handle_msg
  handle_msg-Keeps (Msg.relay_response r) = handle_response-Keeps r
  handle_msg-Keeps (Msg.send r) = send_or-Keeps _ _ _ (tonic r)
  handle_msg-Keeps (Msg.wait_for_ack m tx k) =
      bind-Keeps (modify-Keeps _ (λ s p. p))
        (λ _. later-Keeps opts.ack_timeout (Msg.retry_ack k opts.max_message_attempts) (timer _ _))
  handle_msg-Keeps (Msg.wait_for_reply m tx k) = bind-Keeps (modify-Keeps _ (λ s p. p)) λ _.
      later-Keeps opts.reply_timeout (Msg.retry_ask m.target_id k (ask_retries opts m.qos))
        (timer _ _)
  handle_msg-Keeps (Msg.retry_ack k left) =
      retry_ack-Keeps opts (λ m k. tonic _) k left (λ a. timer _ _)
  handle_msg-Keeps (Msg.retry_ask c k left) =
      retry_ask-Keeps opts (λ m k. tonic _) c k left (λ a. timer _ _)
  handle_msg-Keeps Msg.stop = raise-Keeps _
  handle_msg-Keeps Msg.heartbeat = heartbeat-Keeps opts (tonic _) (timer _ _)
  handle_msg-Keeps Msg.reconnect = raise-Keeps _
