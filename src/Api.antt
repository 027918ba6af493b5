-- ===== src/Api.antt =====
-- The methods of `Client` and `RecvMessage` in relay-client/src/lib.rs: what they put on the
-- actor's channel, and what they return once what they await is there. A call that waits for ever
-- returns nothing and has no value here.
pub mod Numbers
pub mod RoundTrip
use orb_relay_messages.Common.{
  ℕ, ◌+◌, ◌%◌, Bool, true, false, if◌then◌else◌, Option, none, some, List, [], ◌∷◌, ◌++◌, String,
}
use orb_relay_messages.Common.Bytes.{Bytes, u64_mod}
use orb_relay_messages.Common.Outcome.{Outcome, ok, err, panic}
use orb_relay_messages.Relay.{EntityType, as_i32, try_from, Entity, Any, RelayPayload, payload_into}
use orb_relay_messages.Client.{
  Seq, Sender, QoS, SendMessage, RecvdRelayPayload, Err, ClientOpts, relay_payload,
}
use orb_relay_messages.Actor.Defs.{Msg}

-- The clones of a client share the counter. The channels stand in the calls' arguments.
pub record Client : Type 0 where
  pub opts : ClientOpts
  pub seq : Seq

pub record RecvMessage : Type 0 where
  pub from : Entity
  pub payload : Bytes
  pub client : Client
  pub seq : Seq

-- What a call has put on the actor's channel, and its result.
pub record Call (A : Type 0) : Type 0 where
  pub msgs : List Msg
  pub result : Outcome Err A

abbrev then_call : {A B : Type 0} → List Msg → (A → Call B) → Outcome Err A → Call B
then_call ms f (ok a) = let c = f a in record c { msgs = ms ++ c.msgs }
then_call ms f (err e) = record { msgs = ms; result = err e }
then_call ms f panic = record { msgs = ms; result = panic }

infixl 5 ◌>>=◌ ◌>>◌
abbrev ◌>>=◌ : {A B : Type 0} → Call A → (A → Call B) → Call B
c >>= f = then_call c.msgs f c.result

abbrev ◌>>◌ : {A B : Type 0} → Call A → Call B → Call B
c >> d = c >>= λ _. d

abbrev return : {A : Type 0} → Outcome Err A → Call A
return r = record { msgs = []; result = r }

-- `actor_tx.send(m).wrap_err(context)?`, where the channel has a receiver or not.
abbrev tell : Bool → Msg → String → Call (Unit {0})
tell true m context = record { msgs = m ∷ []; result = ok tt }
tell false m context = record { msgs = []; result = err (Err.other context) }

-- `rx.recv_async().await.wrap_err(context)?`: `none` if every sender was dropped.
abbrev awaited : {A : Type 0} → Option A → String → Outcome Err A
awaited none context = err (Err.other context)
awaited (some a) context = ok a

-- `Client::connect`, as far as the client goes.
unfoldable pub connect : ClientOpts → Client
connect opts = record { opts = opts; seq = 0 }

-- `self.seq.fetch_add(1)`: the number, and the client after.
unfoldable pub fetch_seq : Client → Seq × Client
fetch_seq c = (c.seq, record c { seq = (c.seq + 1) % u64_mod })

-- Whether the actor's channel has a receiver at the first and at the second send of a call.
pub record ActorUp : Type 0 where
  pub first : Bool
  pub second : Bool

unfoldable pub await_ack :
    ActorUp → SendMessage → Sender → Seq → Option (Unit {0}) → QoS → Call (Unit {0})
await_ack up m tx seq acked QoS.at_most_once = return (ok tt)
await_ack up m tx seq acked QoS.at_least_once = do
  tell up.second (Msg.wait_for_ack m tx seq) "Error reaching actor loop"
  return (awaited acked "Error when waiting for ack")

-- `tx` is the fresh ack channel, `acked` what arrives on it.
unfoldable pub send :
    Client → ActorUp → Sender → Option (Unit {0}) → SendMessage → Call (Unit {0}) × Client
unfolding fetch_seq await_ack relay_payload
send c up tx acked msg =
    let (seq, c') = fetch_seq c in
    (
      (do
        tell up.first (Msg.send (payload_into (relay_payload c.opts msg seq)))
            "Failed to send message to tonic"
        await_ack up msg tx seq acked msg.qos),
      c',
    )

unfoldable pub ask :
    Client → ActorUp → Sender → Option RecvdRelayPayload → SendMessage → Call Bytes × Client
unfolding fetch_seq relay_payload
ask c up tx replied msg =
    let (seq, c') = fetch_seq c in
    (
      (do
        tell up.first (Msg.send (payload_into (relay_payload c.opts msg seq)))
            "Failed to send message to tonic"
        tell up.second (Msg.wait_for_reply msg tx seq) "Error reaching actor loop"
        reply ← return (awaited replied "Error when waiting for ack")
        return (ok reply.payload)),
      c',
    )

-- The payload of a reply: from this client to where the message came from, under its number.
unfoldable pub reply_payload : RecvMessage → Bytes → RelayPayload
unfolding as_i32
reply_payload r payload = record {
  src = some (record {
    id = r.client.opts.client_id;
    entity_type = as_i32 r.client.opts.entity_type;
    namespace = r.client.opts.namespace;
  });
  dst = some r.from;
  seq = r.seq;
  payload = some (record { type_url = []; value = payload });
}

unfoldable pub reply_message : RecvMessage → Bytes → QoS → EntityType → SendMessage
reply_message r payload qos kind = record {
  target_type = kind;
  payload_data = payload;
  target_id = r.from.id;
  target_namespace = r.from.namespace;
  qos = qos;
}

unfoldable pub await_reply_ack :
    RecvMessage → ActorUp → Sender → Option (Unit {0}) → Bytes → QoS → Call (Unit {0})
unfolding try_from reply_message
await_reply_ack r up tx acked payload QoS.at_most_once = return (ok tt)
await_reply_ack r up tx acked payload QoS.at_least_once = do
  kind ← return (awaited (try_from r.from.entity_type) "Failed to convert EntityType")
  tell up.second (Msg.wait_for_ack (reply_message r payload QoS.at_least_once kind) tx r.seq)
      "Error reaching actor loop"
  return (awaited acked "Error when waiting for ack")

unfoldable pub reply :
    RecvMessage → ActorUp → Sender → Option (Unit {0}) → Bytes → QoS → Call (Unit {0})
unfolding reply_payload await_reply_ack
reply r up tx acked payload qos = do
  tell up.first (Msg.send (payload_into (reply_payload r payload)))
      "Failed to send message to tonic"
  await_reply_ack r up tx acked payload qos

-- `recv`: `none` if the actor is gone.
unfoldable pub recv : Client → Option RecvdRelayPayload → Outcome Err RecvMessage
recv c none = err Err.channel
recv c (some m) = ok (record { from = m.from; payload = m.payload; client = c; seq = m.seq })

unfoldable pub stop : Bool → Call (Unit {0})
stop up = tell up Msg.stop "actor_tx failed to send Stop message"

unfoldable pub reconnect : Bool → Call (Unit {0})
reconnect up = tell up Msg.reconnect "actor_tx failed to send Reconnect message"
