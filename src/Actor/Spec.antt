-- ===== src/Actor/Spec.antt =====
-- What the actor of relay-client/src/actor.rs promises, apart from how it is written: who waits for
-- what, as functions in place of tables, and for each message how the waiters change, what is sent,
-- and how the connection goes on, each described by itself.
pub mod Shows
pub mod Refines
pub mod Whole
pub mod Opens
pub mod Tells
use orb_relay_messages.Common.{
  ℕ, Bool, true, false, not, ◌&&◌, if◌then◌else◌, Option, none, some, List, [], ◌∷◌, ◌++◌, ite,
  ℕ_discrete, String,
}
use orb_relay_messages.Common.Outcome.{Outcome, ok, err, panic}
use orb_relay_messages.Amount.{Amount, is_zero, decrement}
use orb_relay_messages.Relay.{Entity, Any, ResponseMsg, payload_into, heartbeat_into}
use orb_relay_messages.Client.{
  ClientId, Seq, Sender, SendMessage, RecvdRelayPayload, Err, ClientOpts, relay_payload,
}
use orb_relay_messages.Actor.Defs.{State, Msg, Channel, Effect, ReplyKey-discrete}
use orb_relay_messages.Actor.Monad.{Up}
use orb_relay_messages.Actor.Handler.{ask_retries}
use orb_relay_messages.Actor.Session.{Received, StreamItem, Input}
use orb_relay_messages.Actor.Pending.{Entry}

-- Who waits, and whether the heartbeat was started.
pub record Waiters : Type 0 where
  pub for_ack : Seq → Option Entry
  pub for_reply : ClientId × Seq → Option Entry
  pub beating : Bool

-- A function, changed at one key.
abbrev pub set {ℓ} : {K V : Type ℓ} → Discrete K → K → V → (K → V) → K → V
set dec k v f j = ite (dec j k) v (f j)

abbrev pub now_acked : Seq → Waiters → Waiters
now_acked k w = record w { for_ack = set ℕ_discrete k none w.for_ack }

abbrev pub now_replied : ClientId × Seq → Waiters → Waiters
now_replied k w = record w { for_reply = set ReplyKey-discrete k none w.for_reply }

-- A payload that can be handed out, with the key of the question that it answers.
abbrev pub handed_out : Option Any → Option Entity → Seq → Option RecvdRelayPayload
handed_out (some p) (some e) seq = some (record { from = e; payload = p.value; seq = seq })
handed_out _ _ seq = none

abbrev pub question_of : RecvdRelayPayload → ClientId × Seq
question_of r = (r.from.id, r.seq)

abbrev pub after_payload : Option RecvdRelayPayload → Waiters → Waiters
after_payload none w = w
after_payload (some r) w = now_replied (question_of r) w

-- How the waiters change.
abbrev pub after : Msg → Waiters → Waiters
after (Msg.relay_response (ResponseMsg.payload p)) w =
    after_payload (handed_out p.payload p.src p.seq) w
after (Msg.relay_response (ResponseMsg.ack a)) w = now_acked a.seq w
after (Msg.wait_for_ack m tx k) w = record w { for_ack = set ℕ_discrete k (some (m, tx)) w.for_ack }
after (Msg.wait_for_reply m tx k) w = record w {
  for_reply = set ReplyKey-discrete (m.target_id, k) (some (m, tx)) w.for_reply;
}
after _ w = w

-- A value for a channel, if someone is there to receive it.
abbrev pub to : Up → Channel → Effect → List Effect
to up c e = if up c then e ∷ [] else []

abbrev pub payload_to : Up → RecvdRelayPayload → Option Entry → List Effect
payload_to up r none = to up Channel.client (Effect.to_client r)
payload_to up r (some (m, tx)) = to up (Channel.reply tx) (Effect.to_reply tx r)

abbrev pub ack_to : Up → Option Entry → List Effect
ack_to up none = []
ack_to up (some (m, tx)) = to up (Channel.ack tx) (Effect.to_ack tx)

abbrev pub any_payload_to : Up → Waiters → Option RecvdRelayPayload → List Effect
any_payload_to up w none = []
any_payload_to up w (some r) = payload_to up r (w.for_reply (question_of r))

-- A copy of a message that is still waited for, and the next timer, unless no retry is left or
-- the channel to the server is gone.
abbrev pub copy_of : ClientOpts → Up → Seq → Amount → Effect → Option Entry → List Effect
copy_of opts up k left timer none = []
copy_of opts up k left timer (some (m, tx)) =
    if not (is_zero left) && up Channel.tonic
    then Effect.to_tonic (payload_into (relay_payload opts m k)) ∷ timer ∷ []
    else []

-- What is sent, and which timers start.
abbrev pub emitted : ClientOpts → Up → Msg → Waiters → List Effect
emitted opts up (Msg.relay_response (ResponseMsg.payload p)) w =
    any_payload_to up w (handed_out p.payload p.src p.seq)
emitted opts up (Msg.relay_response (ResponseMsg.ack a)) w = ack_to up (w.for_ack a.seq)
emitted opts up (Msg.relay_response (ResponseMsg.connect_response c)) w = []
emitted opts up (Msg.send r) w = to up Channel.tonic (Effect.to_tonic r)
emitted opts up (Msg.wait_for_ack m tx k) w =
    Effect.later opts.ack_timeout (Msg.retry_ack k opts.max_message_attempts) ∷ []
emitted opts up (Msg.wait_for_reply m tx k) w =
    Effect.later opts.reply_timeout (Msg.retry_ask m.target_id k (ask_retries opts m.qos)) ∷ []
emitted opts up (Msg.retry_ack k left) w =
    copy_of opts up k left
      (Effect.later opts.ack_timeout (Msg.retry_ack k (decrement opts.max_message_attempts)))
      (w.for_ack k)
emitted opts up (Msg.retry_ask c k left) w =
    copy_of opts up k left
      (Effect.later opts.reply_timeout (Msg.retry_ask c k (decrement opts.max_message_attempts)))
      (w.for_reply (c, k))
emitted opts up Msg.stop w = []
emitted opts up Msg.reconnect w = []
emitted opts up Msg.heartbeat w =
    if up Channel.tonic
    then Effect.to_tonic (heartbeat_into (record { seq = 0 }))
      ∷ Effect.later opts.heartbeat Msg.heartbeat
      ∷ []
    else []

abbrev pub needs : Up → Channel → String → Outcome Err (Unit {0})
needs up c context = if up c then ok tt else err (Err.other context)

abbrev pub copy_goes : Up → Amount → Option Entry → Outcome Err (Unit {0})
copy_goes up left none = ok tt
copy_goes up left (some e) =
    if is_zero left
    then ok tt
    else needs up Channel.tonic "Failed to send retry message to tonic_tx"

abbrev pub payload_goes : Up → Option Entry → Outcome Err (Unit {0})
payload_goes up none = needs up Channel.client "Failed to send message to client_rx"
payload_goes up (some e) = ok tt

abbrev pub any_payload_goes : Up → Waiters → Option RecvdRelayPayload → Outcome Err (Unit {0})
any_payload_goes up w none = ok tt
any_payload_goes up w (some r) = payload_goes up (w.for_reply (question_of r))

-- Whether the connection goes on.
abbrev pub goes_on : Up → Msg → Waiters → Outcome Err (Unit {0})
goes_on up (Msg.relay_response (ResponseMsg.payload p)) w =
    any_payload_goes up w (handed_out p.payload p.src p.seq)
goes_on up (Msg.send r) w = needs up Channel.tonic "Failed to send a payload to tonic_tx"
goes_on up (Msg.retry_ack k left) w = copy_goes up left (w.for_ack k)
goes_on up (Msg.retry_ask c k left) w = copy_goes up left (w.for_reply (c, k))
goes_on up Msg.stop w = err Err.stop_request
goes_on up Msg.reconnect w = err Err.reconnect_request
goes_on up Msg.heartbeat w = needs up Channel.tonic "Failed to send heartbeat to Orb Relay Server"
goes_on up _ w = ok tt

pub record Trace : Type 0 where
  pub waiters : Waiters
  pub effects : List Effect
  pub result : Outcome Err (Unit {0})

-- What a round of the `select!` stands for: a message to handle, nothing, or the end of the
-- connection.
abbrev pub means : Received → Outcome Err (Option Msg)
means (Received.from_actor m) = ok (some m)
means Received.actor_closed = err (Err.other "relay_actor_tx seemingly dropped")
means (Received.from_stream StreamItem.ended) = err Err.stream_ended
means (Received.from_stream (StreamItem.status s)) = err (Err.tonic s)
means (Received.from_stream (StreamItem.message none)) = ok none
means (Received.from_stream (StreamItem.message (some r))) = ok (some (Msg.relay_response r))

abbrev pub one : ClientOpts → Up → Outcome Err (Option Msg) → Waiters → Trace
one opts up (ok (some m)) w = record {
  waiters = after m w;
  effects = emitted opts up m w;
  result = goes_on up m w;
}
one opts up (ok none) w = record { waiters = w; effects = []; result = ok tt }
one opts up (err e) w = record { waiters = w; effects = []; result = err e }
one opts up panic w = record { waiters = w; effects = []; result = panic }

abbrev pub and_then : Trace → (Waiters → Trace) → Outcome Err (Unit {0}) → Trace
and_then t rest (ok a) = let u = rest t.waiters in record u { effects = t.effects ++ u.effects }
and_then t rest _ = t

-- What a connection does with all that it receives, up to the first end.
unfoldable pub expected : ClientOpts → List Input → Waiters → Trace
expected opts [] w = record { waiters = w; effects = []; result = ok tt }
expected opts (i ∷ is) w =
    let t = one opts i.up (means i.received) w in and_then t (expected opts is) t.result
