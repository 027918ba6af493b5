-- ===== src/System/Sources.antt =====
-- Whose name a client at work speaks in.
use orb_relay_messages.Common.{◌≡◌, ◌≢◌, refl, sym, ◌∙◌, subst, some≢none, Option, none, some, All}
use orb_relay_messages.Common.Bytes.{Bytes}
use orb_relay_messages.Relay.{
  EntityType, as_i32, try_from, Entity, RequestMsg, RelayConnectRequest, ResponseMsg,
}
use orb_relay_messages.Client.{Seq, Sender, QoS, SendMessage, ClientOpts, relay_payload}
use orb_relay_messages.Actor.Defs.{State, Msg, Effect}
use orb_relay_messages.Actor.Handler.{ask_retries, handle_msg}
use orb_relay_messages.Actor.Session.{connect_request}
use orb_relay_messages.Actor.Keeps.{
  Keeps, bind-Keeps, pure-Keeps, raise-Keeps, modify-Keeps, later-Keeps, send_or-Keeps,
}
use orb_relay_messages.Actor.Handler.Keeps.{
  retry_ack-Keeps, retry_ask-Keeps, heartbeat-Keeps, start_heartbeat-Keeps,
  handle_relay_payload-Keeps, handle_ack-Keeps,
}
use orb_relay_messages.Api
use orb_relay_messages.Api.{Client, RecvMessage, await_ack, await_reply_ack, reply_payload}
use orb_relay_messages.System.{Call, System, both_up, IsPossible, issued, Reach}
use orb_relay_messages.System.Meets.{IsKept, Reach-Meet}

-- The entity of a client: its id and namespace, and a type that reads back.
pub record IsSelf (opts : ClientOpts) (e : Entity) : Type 0 where
  pub id : e.id ≡ opts.client_id
  pub namespace : e.namespace ≡ opts.namespace
  pub entity_type : try_from e.entity_type ≡ some opts.entity_type

abbrev IsSelfIf : ClientOpts → Option Entity → Type 0
IsSelfIf opts none = ⊥
IsSelfIf opts (some e) = IsSelf opts e

-- A request with a body that names the client where it names a sender, and a payload with a target
-- and data.
abbrev pub IsOwn : ClientOpts → RelayConnectRequest → Type 0
IsOwn opts r = elim r.msg [
  | none ↦ ⊥
  | some m ↦ elim m [
    | RequestMsg.heartbeat h ↦ Unit {0}
    | RequestMsg.connect_request c ↦ IsSelfIf opts c.client_id
    | RequestMsg.payload p ↦ IsSelfIf opts p.src × ((p.dst ≢ none) × (p.payload ≢ none))
  ]
]

abbrev pub IsOwnMsg : ClientOpts → Msg → Type 0
IsOwnMsg opts (Msg.send r) = IsOwn opts r
IsOwnMsg opts _ = Unit {0}

-- What the server is told, now or by a message that the actor gets later.
abbrev pub SpeaksOwn : ClientOpts → Effect → Type 0
SpeaksOwn opts (Effect.to_tonic r) = IsOwn opts r
SpeaksOwn opts (Effect.to_actor m) = IsOwnMsg opts m
SpeaksOwn opts (Effect.later d m) = IsOwnMsg opts m
SpeaksOwn opts _ = Unit {0}

try_from-as_i32 : (t : EntityType) → try_from (as_i32 t) ≡ some t
unfolding try_from as_i32
try_from-as_i32 EntityType.unspecified = refl
try_from-as_i32 EntityType.app = refl
try_from-as_i32 EntityType.orb = refl
try_from-as_i32 EntityType.service = refl

abbrev AnyState : State → Type 0
AnyState s = Unit {0}

module _ (opts : ClientOpts) where
  abbrev entity_of : ClientOpts → Entity
  entity_of o = record {
    id = o.client_id;
    entity_type = as_i32 o.entity_type;
    namespace = o.namespace;
  }

  entity_of-IsSelf : IsSelf opts (entity_of opts)
  entity_of-IsSelf = record {
    id = refl;
    namespace = refl;
    entity_type = try_from-as_i32 opts.entity_type;
  }

  same_entity-IsSelf : (o : ClientOpts) → o ≡ opts → IsSelf opts (entity_of o)
  same_entity-IsSelf o e = subst (λ x. IsSelf opts (entity_of x)) (sym e) entity_of-IsSelf

  handle_msg-Keeps :
      (msg : Msg) → IsOwnMsg opts msg → Keeps AnyState (SpeaksOwn opts) (handle_msg opts msg)
  unfolding handle_msg relay_payload
  handle_msg-Keeps (Msg.relay_response (ResponseMsg.ack a)) h =
      handle_ack-Keeps (λ s k w. w) (λ t. tt) a.seq
  handle_msg-Keeps (Msg.relay_response (ResponseMsg.payload p)) h =
      handle_relay_payload-Keeps (λ s k w. w) (λ r. tt) (λ t r. tt) p.payload p.src p.seq
  handle_msg-Keeps (Msg.relay_response (ResponseMsg.connect_response c)) h = pure-Keeps tt
  handle_msg-Keeps (Msg.send r) h = send_or-Keeps _ _ _ h
  handle_msg-Keeps (Msg.wait_for_ack m tx k) h =
      bind-Keeps (modify-Keeps _ (λ s w. w))
        (λ _. later-Keeps opts.ack_timeout (Msg.retry_ack k opts.max_message_attempts) tt)
  handle_msg-Keeps (Msg.wait_for_reply m tx k) h = bind-Keeps (modify-Keeps _ (λ s w. w)) (λ _.
      later-Keeps opts.reply_timeout (Msg.retry_ask m.target_id k (ask_retries opts m.qos)) tt)
  handle_msg-Keeps (Msg.retry_ack k left) h =
      retry_ack-Keeps opts (λ m n. (entity_of-IsSelf, (some≢none, some≢none))) k left (λ a. tt)
  handle_msg-Keeps (Msg.retry_ask c k left) h =
      retry_ask-Keeps opts (λ m n. (entity_of-IsSelf, (some≢none, some≢none))) c k left (λ a. tt)
  handle_msg-Keeps Msg.stop h = raise-Keeps _
  handle_msg-Keeps Msg.reconnect h = raise-Keeps _
  handle_msg-Keeps Msg.heartbeat h = heartbeat-Keeps opts tt tt

  await_ack-Own :
      (m : SendMessage) (tx : Sender) (k : Seq) (q : QoS)
      → All (IsOwnMsg opts) (await_ack both_up m tx k none q).msgs
  unfolding await_ack
  await_ack-Own m tx k QoS.at_most_once = tt
  await_ack-Own m tx k QoS.at_least_once = (tt, tt)

  await_reply_ack-Own :
      (r : RecvMessage) (tx : Sender) (bytes : Bytes) (q : QoS)
      → All (IsOwnMsg opts) (await_reply_ack r both_up tx none bytes q).msgs
  unfolding await_reply_ack
  await_reply_ack-Own r tx bytes QoS.at_most_once = tt
  await_reply_ack-Own r tx bytes QoS.at_least_once = go (try_from r.from.entity_type) refl
    where
      go :
          (o : Option EntityType)
          → try_from r.from.entity_type ≡ o
          → All (IsOwnMsg opts) (await_reply_ack r both_up tx none bytes QoS.at_least_once).msgs
      go none e = rw e tt
      go (some kind) e = rw e (tt, tt)

  calls-Own :
      (s : System) (c : Call)
      → IsPossible s c
      → s.client.opts ≡ opts
      → All (IsOwnMsg opts) (issued s.client s.next c).0
  unfolding issued Api.send Api.ask Api.reply Api.stop Api.reconnect relay_payload reply_payload
  calls-Own s (Call.send m) can e =
      ((same_entity-IsSelf _ e, (some≢none, some≢none)), await_ack-Own m s.next s.client.seq m.qos)
  calls-Own s (Call.ask m) can e = ((same_entity-IsSelf _ e, (some≢none, some≢none)), (tt, tt))
  calls-Own s (Call.reply r p q) can e = (
    (same_entity-IsSelf _ (can.same_client ∙ e), (some≢none, some≢none)),
    await_reply_ack-Own r s.next p q,
  )
  calls-Own s Call.stop can e = (tt, tt)
  calls-Own s Call.reconnect can e = (tt, tt)

  own-IsKept : IsKept AnyState (SpeaksOwn opts) (IsOwnMsg opts) opts
  unfolding connect_request
  own-IsKept = record {
    dial = λ d. tt;
    open_stream = λ h. tt;
    introduce = λ a. entity_of-IsSelf;
    hand_on = λ r. tt;
    sleep = tt;
    beat = start_heartbeat-Keeps opts (λ s w. w) tt;
    each = handle_msg-Keeps;
    response = λ r. tt;
    timer = λ d m q. q;
    to_self = λ m q. q;
    calls = calls-Own;
    start = tt;
  }

-- A client speaks in its own name only, and well-typed. At every time, whatever the client, the
-- server, the timers and the connections did in whatever order: every request that the actor sent
-- has a body; a connect request names the client's own id and namespace, and a type that reads back
-- as the client's; every payload names this entity as its source, and has a target and data. First
-- sends, repeated ones and replies to what was received are all meant.
pub speaks_own : (opts : ClientOpts) (s : System) → Reach opts s → All (SpeaksOwn opts) s.effects
speaks_own opts s r = (Reach-Meet _ _ _ opts (own-IsKept opts) r).effects
