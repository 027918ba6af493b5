-- ===== src/Tests/Fixtures.antt =====
-- Options, sessions and pending messages for the examples of relay-client.
use orb_relay_messages.Common.{ℕ, Bool, true, none, some, List, [], ◌∷◌, ℕ_discrete}
use orb_relay_messages.Common.Bytes.{bytes}
use orb_relay_messages.Common.HashMap
use orb_relay_messages.Amount.{Amount}
use orb_relay_messages.Relay.{EntityType, Entity, Any, ResponseMsg}
use orb_relay_messages.Client.{Auth, QoS, SendMessage, ClientOpts}
use orb_relay_messages.Actor.Defs.{State, ReplyKey-discrete}
use orb_relay_messages.Actor.Monad.{Up}
use orb_relay_messages.Actor.Session.{Answers, Awaited, StreamItem, Received, Input}
use orb_relay_messages.Actor.Pending.{Waits, Unused, insert-Waits}
use orb_relay_messages.Actor.Payload.{payload_msg}
use orb_relay_messages.Actor.Run.{Session, initial}

abbrev pub opts : Amount → Amount → ClientOpts
opts attempts messages = record {
  entity_type = EntityType.app;
  client_id = bytes "apple";
  namespace = bytes "green";
  endpoint = bytes "https://relay";
  auth = Auth.token [];
  connection_timeout = 5000;
  connection_backoff = 10;
  max_connection_attempts = attempts;
  ack_timeout = 20;
  reply_timeout = 20;
  heartbeat = 30;
  max_message_attempts = messages;
  keep_alive_interval = 30;
  keep_alive_timeout = 10;
}

abbrev pub three : ClientOpts
three = opts (Amount.val 3) (Amount.val 3)

abbrev pub up : Up
up c = true

abbrev pub greeting : Bool → Answers
greeting success = record {
  endpoint_error = none;
  channel = Awaited.ready;
  is_ascii = true;
  watched = [];
  stream = Awaited.ready;
  items =
      StreamItem.message (
        some
          (ResponseMsg.connect_response (record { client_id = []; success = success; error = [] })))
      ∷ [];
}

abbrev pub session : Bool → List Received → Session
session success rs = record { up = up; answers = greeting success; inputs = inputs rs }
  where
    inputs : List Received → List Input
    inputs [] = []
    inputs (r ∷ rs) = record { up = up; received = r } ∷ inputs rs

abbrev pub message : QoS → SendMessage
message qos = record {
  target_type = EntityType.orb;
  payload_data = bytes "hello";
  target_id = bytes "fruit";
  target_namespace = bytes "green";
  qos = qos;
}

abbrev pub question : SendMessage
question = message QoS.at_least_once

abbrev pub ack_of : ℕ → ResponseMsg
ack_of seq = ResponseMsg.ack (record { seq = seq; subscriber_count = none })

abbrev pub answer : Any
answer = record { type_url = []; value = bytes "hi" }

pub empty-Unused : {K : Type 0} (dec : Discrete K) (tx : ℕ) → Unused dec tx []
unfolding HashMap.get
empty-Unused dec tx k m e = cc

-- Two connections, with an ack of another number and a payload from someone else.
abbrev pub others : List Session
others =
    session true (
      Received.from_stream (StreamItem.message (some (ack_of 8)))
      ∷ Received.from_stream StreamItem.ended
      ∷ [])
    ∷ session true (Received.from_actor (payload_msg stranger none 7 answer) ∷ [])
    ∷ []
  where
    stranger : Entity
    stranger = record { id = bytes "somebody"; entity_type = 2; namespace = bytes "green" }

abbrev pub ack_pending : State
ack_pending = record initial { pending_acks = (7, (question, 1)) ∷ [] }

abbrev pub reply_pending : State
reply_pending = record initial { pending_replies = ((question.target_id, 7), (question, 2)) ∷ [] }

pub ack_pending-Waits : Waits ℕ_discrete 7 question 1 ack_pending.pending_acks
unfolding HashMap.insert HashMap.remove
ack_pending-Waits = insert-Waits ℕ_discrete [] 7 question 1 (empty-Unused ℕ_discrete 1)

pub reply_pending-Waits :
    Waits ReplyKey-discrete (question.target_id, 7) question 2 reply_pending.pending_replies
unfolding HashMap.insert HashMap.remove
reply_pending-Waits =
    insert-Waits ReplyKey-discrete [] (question.target_id, 7) question 2
      (empty-Unused ReplyKey-discrete 2)
