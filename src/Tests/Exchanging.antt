-- ===== src/Tests/Exchanging.antt =====
-- A question from one concrete client of relay-client/ to another through the server of test-utils/.
use orb_relay_messages.Common.{
  ℕ, ◌+◌, ℕ_discrete, ◌≡◌, ◌≢◌, refl, ap, ◌∙◌, none, some, [], ◌∷◌, arith,
}
use orb_relay_messages.Common.Bytes.{Bytes, Bytes-discrete, bytes}
use orb_relay_messages.Common.Outcome.{ok}
use orb_relay_messages.Common.HashMap
use orb_relay_messages.Common.HashMap.{get-insert_self, get-insert_ne}
use orb_relay_messages.Client.{QoS, RecvdRelayPayload}
use orb_relay_messages.Actor.Defs.{Effect}
use orb_relay_messages.Relay.{RequestMsg}
use orb_relay_messages.Actor.Session.{StreamItem}
use orb_relay_messages.Actor.Run.{initial}
use orb_relay_messages.Api.{recv}
use orb_relay_messages.Api.RoundTrip.{address, received_by}
use orb_relay_messages.Server.{Handler, ack_into_res, entity_key, ConnectedClients, World}
use orb_relay_messages.Exchange.Legs.{IsRelay, IsIdle}
use orb_relay_messages.Exchange.Send.{Acknowledges, items, confirmed, sending, send_acked}
use orb_relay_messages.Exchange.Ask.{call, arrived, resolved, ask_answered}
use orb_relay_messages.Tests.Fixtures.{ack_of, empty-Unused, three, up, question}
use orb_relay_messages.Tests.Calls.{asker, answerer}
use orb_relay_messages.Tests.Serving.{relay}

relay-IsRelay : IsRelay relay
relay-IsRelay = record { answer = λ s p clients. refl }

abbrev key_a : Bytes
key_a = entity_key (address three)

abbrev key_b : Bytes
key_b = entity_key (address answerer.opts)

abbrev asker_only : ConnectedClients
asker_only = HashMap.insert Bytes-discrete key_a 1 []

abbrev both : World ℕ
both = record {
  state = 0;
  clients = HashMap.insert Bytes-discrete key_b 2 asker_only;
  jobs = [];
  commands = [];
  gone = [];
}

both-IsIdle : IsIdle both
both-IsIdle = record { no_jobs = refl; no_commands = refl; all_open = refl }

abbrev first : Bytes → ℕ
first [] = 0
first (b ∷ bs) = b

keys_differ : key_a ≢ key_b
unfolding entity_key
keys_differ e = absurd (omega (arith, ap first e))

a_connected : HashMap.get Bytes-discrete key_a both.clients ≡ some 1
a_connected =
    get-insert_ne Bytes-discrete key_b key_a 2 asker_only keys_differ
    ∙ get-insert_self Bytes-discrete key_a 1 []

b_connected : HashMap.get Bytes-discrete key_b both.clients ≡ some 2
b_connected = get-insert_self Bytes-discrete key_b 2 asker_only

ask_answered_example :
    ((r : RecvdRelayPayload) × ((arrived relay 1 2 asker answerer up question 1 2
          (bytes "hi")
          QoS.at_least_once
          none
          initial
          initial
          both).effects
        ≡ Effect.to_client r ∷ [])
      × (recv answerer (some r) ≡ ok (received_by answerer three question 7)))
    × ((resolved relay 1 2 asker answerer up question 1 2
          (bytes "hi")
          QoS.at_least_once
          none
          initial
          initial
          both).effects
        ≡ Effect.to_reply 1 (record { from = address answerer.opts; payload = bytes "hi"; seq = 7 })
          ∷ [])
    × ((call relay 1 2 asker answerer up question 1 2
          (bytes "hi")
          QoS.at_least_once
          none
          initial
          initial
          both).result
        ≡ ok (bytes "hi"))
unfolding HashMap.get
ask_answered_example =
    ask_answered relay 1 2 asker answerer up question 1 2 (bytes "hi") QoS.at_least_once none
      initial initial both relay-IsRelay both-IsIdle a_connected b_connected refl refl (λ ch. refl)

-- It counts the requests and acknowledges every payload.
abbrev acking : Handler ℕ
acking n (RequestMsg.payload p) clients =
    (n + 1, (ack_into_res (record { seq = p.seq; subscriber_count = none }), []))
acking n _ clients = (n + 1, (none, []))

acking-Acknowledges : Acknowledges acking none
acking-Acknowledges = record { answer = λ s p clients. refl }

abbrev ack_item : StreamItem
ack_item = StreamItem.message (some (ack_of 7))

send_acked_example :
    (items acking none 1 asker up question 5 initial both ≡ ack_item ∷ [])
    × ((confirmed acking none 1 asker up question 5 initial both).effects ≡ Effect.to_ack 5 ∷ [])
    × (HashMap.get ℕ_discrete 7
          (confirmed acking none 1 asker up question 5 initial both).state.pending_acks
        ≡ none)
    × ((sending acking none 1 asker up question 5 initial both).result ≡ ok tt)
send_acked_example =
    send_acked acking none 1 asker up question 5 initial both acking-Acknowledges refl refl refl
      (empty-Unused ℕ_discrete 5)
