-- ===== src/Exchange/Ask.antt =====
-- `ask` of one client of relay-client/src/lib.rs and `reply` of another, all the way through both
-- actors, both forwarders and the server.
use orb_relay_messages.Common.{
  ◌≤◌, ◌≡◌, refl, sym, ap, ◌∙◌, true, Option, none, some, List, [], ◌∷◌, append-nil, arith,
}
use orb_relay_messages.Common.Bytes.{Bytes, Bytes-discrete}
use orb_relay_messages.Common.Outcome.{ok}
use orb_relay_messages.Common.HashMap
use orb_relay_messages.Common.HashMap.{get-insert_self}
use orb_relay_messages.Actor.Payload.{recvd}
use orb_relay_messages.Relay.{
  EntityType, as_i32, Entity, Any, RelayPayload, ResponseMsg, payload_into,
}
use orb_relay_messages.Client.{
  Seq, Sender, QoS, SendMessage, RecvdRelayPayload, ClientOpts, relay_payload,
}
use orb_relay_messages.Actor.Defs.{State, Channel, Effect, ReplyKey-discrete}
use orb_relay_messages.Actor.Monad.{Up, Done}
use orb_relay_messages.Actor.Handler.{handle_msg}
use orb_relay_messages.Actor.Session.{StreamItem, receive, serve}
use orb_relay_messages.Actor.Run.Replies.{receiver, target, payload_goes_to_one}
use orb_relay_messages.Api.{Client, Call, ask, recv, reply, reply_payload}
use orb_relay_messages.Api.RoundTrip.{handled, both_up, address, received_by}
use orb_relay_messages.Server.{Handler, World, entity_key}
use orb_relay_messages.Exchange.{tonic_queue, leg, receives}
use orb_relay_messages.Exchange.Legs.{received_one, IsRelay, IsIdle, leg_lem}

-- One payload from one client to another: exactly the payload is handed out, to the question that
-- waits for it or to the client's queue.
carried :
    {S : Type 0} (handler : Handler S)
    → IsRelay handler
    → (tx to : Sender) (es : List Effect) (src dst : Entity) (seq : Seq) (payload : Any)
      (w : World S) (opts : ClientOpts) (up : Up) (s : State)
    → tonic_queue es
      ≡ payload_into (record { src = some src; dst = some dst; seq = seq; payload = some payload })
        ∷ []
    → HashMap.get Bytes-discrete (entity_key dst) w.clients ≡ some to
    → IsIdle w
    → ((ch : Channel) → up ch ≡ true)
    → ((receives opts up (leg handler tx to es w).0 s).effects
        ≡ receiver
            (recvd src seq payload)
            (HashMap.get ReplyKey-discrete (src.id, seq) s.pending_replies)
          ∷ [])
      × IsIdle (leg handler tx to es w).1
      × ((leg handler tx to es w).1.clients ≡ w.clients)
carried handler relays tx to es src dst seq payload w opts up s q c idle u =
    let p : RelayPayload = record {
      src = some src;
      dst = some dst;
      seq = seq;
      payload = some payload;
    } in
    let (items, idle', kept) = leg_lem handler relays tx to es p dst w q refl c idle in
    let (e, r, _) = payload_goes_to_one opts src (some dst) seq payload up s u in
    (
      ap (λ is. (receives opts up is s).effects) items
          ∙ ap (λ d. d.effects) (received_one opts up (ResponseMsg.payload p) s r)
          ∙ append-nil _
          ∙ e,
      idle',
      kept,
    )

asked_lem :
    (a : Client) (m : SendMessage) (tx : Sender) (up : Up) (s : State) (r : RecvdRelayPayload)
    → up Channel.tonic ≡ true
    → let d = handled a.opts up (ask a both_up tx (some r) m).0.msgs s in
      (tonic_queue d.effects ≡ payload_into (relay_payload a.opts m a.seq) ∷ [])
      × (d.state.pending_replies
          ≡ HashMap.insert ReplyKey-discrete (m.target_id, a.seq) (m, tx) s.pending_replies)
unfolding ask serve receive handle_msg
asked_lem a m tx up s r u = ground arith

as_i32-le : (e : EntityType) → as_i32 e ≤ 3
unfolding as_i32
as_i32-le EntityType.unspecified = omega arith
as_i32-le EntityType.app = omega arith
as_i32-le EntityType.orb = omega arith
as_i32-le EntityType.service = omega arith

replied_lem :
    (opts : ClientOpts) (b : Client) (m : SendMessage) (seq : Seq) (up : Up) (tx' : Sender)
    (acked : Option (Unit {0})) (bytes : Bytes) (qos : QoS) (s : State)
    → up Channel.tonic ≡ true
    → let r = received_by b opts m seq in
      tonic_queue (handled b.opts up (reply r both_up tx' acked bytes qos).msgs s).effects
      ≡ payload_into (reply_payload r bytes) ∷ []
unfolding reply serve receive handle_msg
replied_lem opts b m seq up tx' acked bytes QoS.at_most_once s u = ground arith
replied_lem opts b m seq up tx' acked bytes QoS.at_least_once s u =
    ground (arith, u, as_i32-le opts.entity_type)

-- The whole exchange, each step from the one before.
module _ {S : Type 0} (handler : Handler S) (stream_a stream_b : Sender) (a b : Client) (up : Up)
    (m : SendMessage) (tx tx' : Sender) (bytes : Bytes) (qos : QoS) (acked : Option (Unit {0}))
    (s_a s_b : State) (w : World S) where
  -- what the asker's channel gets in the end
  abbrev pub reply_received : RecvdRelayPayload
  reply_received = record { from = address b.opts; payload = bytes; seq = a.seq }

  abbrev pub call : Call Bytes
  call = (ask a both_up tx (some reply_received) m).0

  abbrev pub asked : Done (Unit {0})
  asked = handled a.opts up call.msgs s_a

  abbrev pub there : List StreamItem × World S
  there = leg handler stream_a stream_b asked.effects w

  abbrev pub arrived : Done (Unit {0})
  arrived = receives b.opts up there.0 s_b

  abbrev pub replied : Done (Unit {0})
  replied =
      handled b.opts up (reply (received_by b a.opts m a.seq) both_up tx' acked bytes qos).msgs
        arrived.state

  abbrev pub back : List StreamItem × World S
  back = leg handler stream_b stream_a replied.effects there.1

  abbrev pub resolved : Done (Unit {0})
  resolved = receives a.opts up back.0 asked.state

  -- A question is answered through the whole system. Two clients are connected to a server that
  -- relays payloads, is idle, and knows the second client as the target of the message; every
  -- channel has its receiver, and the second client has no question of the same number open to the
  -- first. Then exactly the question reaches the queue of the second client, whose `recv` hands it
  -- out with the asker's address; its `reply`, under either QoS, puts exactly its bytes on the
  -- asker's channel, and with these `ask` returns them.
  pub ask_answered :
      IsRelay handler
      → IsIdle w
      → HashMap.get Bytes-discrete (entity_key (address a.opts)) w.clients ≡ some stream_a
      → HashMap.get Bytes-discrete (entity_key (address b.opts)) w.clients ≡ some stream_b
      → target m (as_i32 m.target_type) m.target_namespace ≡ address b.opts
      → HashMap.get ReplyKey-discrete (a.opts.client_id, a.seq) s_b.pending_replies ≡ none
      → ((ch : Channel) → up ch ≡ true)
      → ((r : RecvdRelayPayload) × (arrived.effects ≡ Effect.to_client r ∷ [])
          × (recv b (some r) ≡ ok (received_by b a.opts m a.seq)))
        × (resolved.effects ≡ Effect.to_reply tx reply_received ∷ [])
        × (call.result ≡ ok bytes)
  unfolding relay_payload reply_payload recv ask
  ask_answered relays idle ha hb same free u =
      let dst = target m (as_i32 m.target_type) m.target_namespace in
      let question : Any = record { type_url = []; value = m.payload_data } in
      let (qa, table) = asked_lem a m tx up s_a reply_received (u Channel.tonic) in
      let to_b = ap (λ e. HashMap.get Bytes-discrete (entity_key e) w.clients) same ∙ hb in
      let (at_b, idle', kept) =
        carried handler relays stream_a stream_b asked.effects (address a.opts) dst a.seq question w
          b.opts up s_b qa to_b idle u in
      let qb =
        replied_lem a.opts b m a.seq up tx' acked bytes qos arrived.state (u Channel.tonic) in
      let to_a = ap (λ c. HashMap.get Bytes-discrete (entity_key (address a.opts)) c) kept ∙ ha in
      let (at_a, _, _) =
        carried handler relays stream_b stream_a replied.effects (address b.opts) (address a.opts)
          a.seq (record { type_url = []; value = bytes }) there.1 a.opts up asked.state qb to_a
          idle' u in
      let waiting : HashMap.get ReplyKey-discrete (b.opts.client_id, a.seq)
            asked.state.pending_replies
          ≡ some (m, tx) =
        ap (HashMap.get ReplyKey-discrete (b.opts.client_id, a.seq)) table
        ∙ ap
            (λ (e : Entity).
              HashMap.get ReplyKey-discrete (e.id, a.seq)
                (HashMap.insert ReplyKey-discrete (m.target_id, a.seq) (m, tx) s_a.pending_replies))
            (sym same)
        ∙ get-insert_self ReplyKey-discrete (m.target_id, a.seq) (m, tx) s_a.pending_replies in
      (
        (_, at_b ∙ ap (λ o. receiver (recvd (address a.opts) a.seq question) o ∷ []) free, refl),
        at_a ∙ ap (λ o. receiver reply_received o ∷ []) waiting,
        refl,
      )
