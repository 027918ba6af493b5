-- ===== src/Exchange.antt =====
-- Two clients of relay-client/ and the server of test-utils/ between them: what the actor of one
-- client sends goes through its forwarder and the server to the actor of the other.
pub mod Legs
pub mod Ask
pub mod Send
pub mod Reopen
use orb_relay_messages.Common.{ℕ, Option, none, some, List, [], ◌∷◌, map, length}
use orb_relay_messages.Relay.{RelayConnectRequest, RelayConnectResponse}
use orb_relay_messages.Client.{Sender, RecvdRelayPayload, ClientOpts}
use orb_relay_messages.Actor.Defs.{State, Effect}
use orb_relay_messages.Actor.Monad.{Up, Done}
use orb_relay_messages.Actor.Session.{StreamItem, Received, Input, serve}
use orb_relay_messages.Forwarder.{steps, new}
use orb_relay_messages.Forwarder.Connections.{rounds}
use orb_relay_messages.Server.{Handler, World, Turn, turns, yielded, on_request, before_end}

-- The requests that the actor put on its channel to the server, and the payloads that it put on the
-- queue of the client.
abbrev pub tonic_queue : List Effect → List RelayConnectRequest
tonic_queue [] = []
tonic_queue (Effect.to_tonic r ∷ es) = r ∷ tonic_queue es
tonic_queue (_ ∷ es) = tonic_queue es

abbrev pub client_queue : List Effect → List RecvdRelayPayload
client_queue [] = []
client_queue (Effect.to_client r ∷ es) = r ∷ client_queue es
client_queue (_ ∷ es) = client_queue es

-- A forwarder that is given time, with the buffer that `connect` gives it.
unfoldable pub forwarded : List RelayConnectRequest → List RelayConnectRequest
forwarded q = (steps 4 (rounds (length q)) (new q)).taken

abbrev pub request_turn : Sender → RelayConnectRequest → Turn
request_turn tx r = elim r.msg [ none ↦ Turn.broken tx | some m ↦ Turn.request tx m ]

abbrev pub request_turns : Sender → List RelayConnectRequest → List Turn
request_turns tx = map (request_turn tx)

-- All spawned tasks run.
unfoldable pub settle : {S : Type 0} → Handler S → World S → World S
settle handler w = turns handler (map Turn.task w.jobs) (record w { jobs = [] })

-- The streams give what their channels hold.
abbrev pub drained : {S : Type 0} → World S → World S
drained w = record w { commands = [] }

abbrev pub item : RelayConnectResponse → StreamItem
item r = StreamItem.message r.msg

-- One leg: from the effects of the client on the stream with `tx` to what the stream with `to`
-- gives, and the server after.
unfoldable pub leg :
    {S : Type 0} → Handler S → Sender → Sender → List Effect → World S → List StreamItem × World S
unfolding forwarded settle
leg handler tx to es w =
    let w' = settle handler (turns handler (request_turns tx (forwarded (tonic_queue es))) w) in
    (map item (yielded to w'.commands), drained w')

-- What the stream of the requests itself gives for them, one after the other.
unfoldable pub responses :
    {S : Type 0}
    → Handler S
    → Sender
    → List RelayConnectRequest
    → World S
    → List RelayConnectResponse
unfolding on_request
responses handler tx [] w = []
responses handler tx (r ∷ rs) w = elim r.msg [
  | none ↦ []
  | some m ↦ let (w', y) = on_request handler tx m w in before_end y (responses handler tx rs w')
]

-- A client that receives these items.
abbrev pub receives : ClientOpts → Up → List StreamItem → State → Done (Unit {0})
receives opts up items =
    serve opts (map (λ i. record { up = up; received = Received.from_stream i }) items) up
