-- ===== src/Exchange/Send.antt =====
-- `send` of a client of relay-client/src/lib.rs with `QoS::AtLeastOnce`, through its actor, its
-- forwarder and the server, back to the `Ack`.
use orb_relay_messages.Common.{
  ℕ, ◌≡◌, refl, ap, ◌∙◌, true, Option, none, some, List, [], ◌∷◌, map, append-nil, ℕ_discrete,
}
use orb_relay_messages.Common.Outcome.{ok}
use orb_relay_messages.Common.HashMap
use orb_relay_messages.Common.HashMap.{get-remove_self}
use orb_relay_messages.Relay.{RelayPayload, RequestMsg, ResponseMsg, Ack, payload_into}
use orb_relay_messages.Client.{Sender, QoS, SendMessage, relay_payload}
use orb_relay_messages.Actor.Defs.{State, Channel, Effect}
use orb_relay_messages.Actor.Monad.{Up, Done}
use orb_relay_messages.Actor.Pending.{Unused}
use orb_relay_messages.Actor.Run.Acks.{ack_notifies}
use orb_relay_messages.Actor.Session.{StreamItem}
use orb_relay_messages.Api.{Client, Call, send}
use orb_relay_messages.Api.RoundTrip.{handled, both_up, send_registers}
use orb_relay_messages.Server.{Handler, World, on_request, enter, answered, yields}
use orb_relay_messages.Exchange.{tonic_queue, forwarded, responses, item, receives}
use orb_relay_messages.Exchange.Legs.{forwarded_all, received_one}

abbrev ack_for : RelayPayload → Option ℕ → Ack
ack_for p c = record { seq = p.seq; subscriber_count = c }

-- A handler that acknowledges every payload, under the payload's number.
pub record Acknowledges {S : Type 0} (handler : Handler S) (c : Option ℕ) : Type 0 where
  pub answer :
      (s : S) (p : RelayPayload) (clients : HashMap.HashMap (List ℕ) Sender)
      → (handler s (RequestMsg.payload p) clients).1.0
        ≡ some (record { msg = some (ResponseMsg.ack (ack_for p c)) })

module _ {S : Type 0} (handler : Handler S) (c : Option ℕ) (acks : Acknowledges handler c) where
  acked_lem :
      (stream : Sender) (p : RelayPayload) (w : World S)
      → responses handler stream (payload_into p ∷ []) w
        ≡ record { msg = some (ResponseMsg.ack (ack_for p c)) } ∷ []
  unfolding responses on_request enter answered yields
  acked_lem stream p w = rw (acks.answer w.state p w.clients) refl

-- The whole way, each step from the one before.
module _ {S : Type 0} (handler : Handler S) (c : Option ℕ) (stream : Sender) (a : Client) (up : Up)
    (m : SendMessage) (tx : Sender) (s : State) (w : World S) where
  abbrev pub sending : Call (Unit {0})
  sending = (send a both_up tx (some tt) m).0

  abbrev pub sent : Done (Unit {0})
  sent = handled a.opts up sending.msgs s

  abbrev pub items : List StreamItem
  items = map item (responses handler stream (forwarded (tonic_queue sent.effects)) w)

  abbrev pub confirmed : Done (Unit {0})
  confirmed = receives a.opts up items sent.state

  -- An `AtLeastOnce` send is confirmed through the whole system: the client is connected to a server
  -- that acknowledges payloads, its ack channel is fresh, and the server and the sender are there to
  -- receive. Then the stream gives exactly the ack of the message's number, the actor puts exactly
  -- one value on the ack channel, with which `send` returns `Ok`, and nobody waits under the number
  -- any more, so that its retry timer sends nothing.
  pub send_acked :
      Acknowledges handler c
      → m.qos ≡ QoS.at_least_once
      → up Channel.tonic ≡ true
      → up (Channel.ack tx) ≡ true
      → Unused ℕ_discrete tx s.pending_acks
      → (items
          ≡ StreamItem.message
              (some (ResponseMsg.ack (record { seq = a.seq; subscriber_count = c })))
            ∷ [])
        × (confirmed.effects ≡ Effect.to_ack tx ∷ [])
        × (HashMap.get ℕ_discrete a.seq confirmed.state.pending_acks ≡ none)
        × (sending.result ≡ ok tt)
  unfolding relay_payload
  send_acked acks q u u' fresh =
      let (es, waits, result) = send_registers a tx m up s q u fresh in
      let p = relay_payload a.opts m a.seq in
      let waiter : Done (Unit {0}) → Option (SendMessage × Sender) =
        λ d. HashMap.get ℕ_discrete a.seq d.state.pending_acks in
      let given : items ≡ StreamItem.message (some (ResponseMsg.ack (ack_for p c))) ∷ [] =
        ap (λ q. map item (responses handler stream q w))
          (forwarded_all (tonic_queue sent.effects) ∙ ap tonic_queue es)
        ∙ ap (map item) (acked_lem handler c acks stream p w) in
      let n = ack_notifies a.seq m tx a.opts c up sent.state waits u' in
      let done =
        ap (λ is. receives a.opts up is sent.state) given
        ∙ received_one a.opts up (ResponseMsg.ack (ack_for p c)) sent.state
            (ap (λ d. d.result) n) in
      (
        given,
        ap (λ d. d.effects) done ∙ append-nil _ ∙ ap (λ d. d.effects) n,
        ap waiter done ∙ ap waiter n ∙ get-remove_self ℕ_discrete a.seq sent.state.pending_acks,
        result,
      )
