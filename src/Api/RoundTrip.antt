-- ===== src/Api/RoundTrip.antt =====
-- Calls of relay-client/src/lib.rs together with the actors of relay-client/src/actor.rs that take
-- their messages.
use orb_relay_messages.Common.{
  ℕ_discrete, ◌≡◌, refl, ap, ◌∙◌, sym, subst, true, Option, none, some, List, [], ◌∷◌, map, arith,
}
use orb_relay_messages.Common.Bytes.{Bytes}
use orb_relay_messages.Common.Outcome.{ok}
use orb_relay_messages.Common.HashMap
use orb_relay_messages.Relay.{as_i32, Entity, ResponseMsg, payload_into}
use orb_relay_messages.Client.{
  Seq, Sender, QoS, SendMessage, RecvdRelayPayload, ClientOpts, relay_payload,
}
use orb_relay_messages.Actor.Defs.{State, Msg, Channel, Effect, ReplyKey-discrete}
use orb_relay_messages.Actor.Monad.{Up, Done}
use orb_relay_messages.Actor.Handler.{handle_msg, deliver}
use orb_relay_messages.Actor.Session.{Received, serve}
use orb_relay_messages.Actor.Pending.{Waits, Unused, insert-Waits}
use orb_relay_messages.Api.{Client, RecvMessage, ActorUp, send, recv, reply_payload, reply}

-- The actor takes the messages of a call one after the other.
abbrev pub handled : ClientOpts → Up → List Msg → State → Done (Unit {0})
handled opts up ms =
    serve opts (map (λ m. record { up = up; received = Received.from_actor m }) ms) up

abbrev pub both_up : ActorUp
both_up = record { first = true; second = true }

-- Once the actor has taken the two messages of an `AtLeastOnce` send, exactly the message itself
-- has gone to the server, a retry is due after the ack timeout, and the sender waits for the ack of
-- the message's number; the call returns `Ok` when that comes.
pub send_registers :
    (c : Client) (tx : Sender) (m : SendMessage) (up : Up) (s : State)
    → m.qos ≡ QoS.at_least_once
    → up Channel.tonic ≡ true
    → Unused ℕ_discrete tx s.pending_acks
    → let call = (send c both_up tx (some tt) m).0 in
      let d = handled c.opts up call.msgs s in
      (d.effects
        ≡ Effect.to_tonic (payload_into (relay_payload c.opts m c.seq))
          ∷ Effect.later c.opts.ack_timeout (Msg.retry_ack c.seq c.opts.max_message_attempts)
          ∷ [])
      × Waits ℕ_discrete c.seq m tx d.state.pending_acks
      × (call.result ≡ ok tt)
unfolding send serve
send_registers c tx m up s q u fresh =
    let table : (handled c.opts up (send c both_up tx (some tt) m).0.msgs s).state.pending_acks
        ≡ HashMap.insert ℕ_discrete c.seq (m, tx) s.pending_acks =
      ground arith in
    (
      ground arith,
      subst (Waits ℕ_discrete c.seq m tx) (sym table)
          (insert-Waits ℕ_discrete s.pending_acks c.seq m tx fresh),
      ground arith,
    )

-- The address of a client.
abbrev pub address : ClientOpts → Entity
address a = record { id = a.client_id; entity_type = as_i32 a.entity_type; namespace = a.namespace }

-- The payload that a client hands out, for a payload that its actor received.
abbrev pub received_by : Client → ClientOpts → SendMessage → Seq → RecvMessage
received_by b a m seq = record { from = address a; payload = m.payload_data; client = b; seq = seq }

-- A question reaches the client of its target: relayed to an actor that has no question of the
-- same number open to the asker, it goes to the client's own queue, and `recv` hands it out with
-- the asker's address, the bytes and the number of the question.
pub question_arrives :
    (a : ClientOpts) (b : Client) (m : SendMessage) (seq : Seq) (up : Up) (s : State)
    → up Channel.client ≡ true
    → HashMap.get ReplyKey-discrete (a.client_id, seq) s.pending_replies ≡ none
    → (r : RecvdRelayPayload) × ((handle_msg b.opts
          (Msg.relay_response (ResponseMsg.payload (relay_payload a m seq)))
          up
          s).effects
        ≡ Effect.to_client r ∷ [])
      × (recv b (some r) ≡ ok (received_by b a m seq))
unfolding handle_msg relay_payload recv
question_arrives a b m seq up s u free = (_, rw (free, deliver, u), refl)

-- The reply to a question answers it: what `reply` sends first, relayed to the asker, goes to the
-- waiting question with the bytes of the reply, provided that the replying client is the one that
-- was asked. This holds for every QoS and outcome of the reply.
pub reply_resolves :
    (a : ClientOpts) (b : Client) (m : SendMessage) (seq : Seq) (tx tx' : Sender) (up : Up)
    (s : State) (bytes : Bytes) (qos : QoS) (acked : Option (Unit {0}))
    → b.opts.client_id ≡ m.target_id
    → Waits ReplyKey-discrete (m.target_id, seq) m tx s.pending_replies
    → up (Channel.reply tx) ≡ true
    → let p = reply_payload (received_by b a m seq) bytes in
      ((rest : List Msg) × ((reply (received_by b a m seq) both_up tx' acked bytes qos).msgs
          ≡ Msg.send (payload_into p) ∷ rest))
      × ((handle_msg a (Msg.relay_response (ResponseMsg.payload p)) up s).effects
          ≡ Effect.to_reply tx (record { from = address b.opts; payload = bytes; seq = seq }) ∷ [])
unfolding handle_msg reply
reply_resolves a b m seq tx tx' up s bytes qos acked same w u =
    let found : HashMap.get ReplyKey-discrete (b.opts.client_id, seq) s.pending_replies
        ≡ some (m, tx) =
      ap (λ c. HashMap.get ReplyKey-discrete (c, seq) s.pending_replies) same ∙ w.held in
    ((_, refl), rw (found, deliver) (rw u))
