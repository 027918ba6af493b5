-- ===== src/Server.antt =====
-- test-utils/src/lib.rs: the relay server of the integration tests. Its handler is a parameter, and
-- so is the order in which streams, spawned tasks and queued commands get their turns.
pub mod Routing
pub mod Delivery
pub mod TlsMaterial
use orb_relay_messages.Common.{
  ◌||◌, ◌&&◌, ℕ, zero, suc, ◌+◌, ◌-◌, ◌/◌, ◌%◌, ◌^◌, Bool, if◌then◌else◌, ltb, ◌==◌, true, false,
  Option, none, some, List, [], ◌∷◌, ◌++◌,
}
use orb_relay_messages.Common.Bytes.{Text, Bytes-discrete, u32_mod}
use orb_relay_messages.Common.HashMap
use orb_relay_messages.Common.HashMap.{HashMap}
use orb_relay_messages.Common.Outcome.{Outcome, ok, err, panic}
use orb_relay_messages.Relay.{
  Entity, RelayPayload, Ack, ConnectResponse, ConnectRequest, RequestMsg, ResponseMsg,
  RelayConnectResponse,
}
use orb_relay_messages.Client.{Sender}

pub data Cmd : Type 0 where
  send : RelayPayload → Cmd
  terminate : Cmd

-- Decimal digits: ten are enough for 32 bits.
unfoldable pub digits : ℕ → ℕ → Text
digits zero n = []
digits (suc k) n =
    let front = digits k (n / 10) in if ltb n 10 then (48 + n) ∷ [] else front ++ (48 + n % 10) ∷ []

unfoldable pub show_i32 : ℕ → Text
unfolding digits
show_i32 n = if ltb n (2 ^ 31) then digits 10 n else 45 ∷ digits 10 (u32_mod - n)

unfoldable pub entity_key : Entity → Text
unfolding show_i32
entity_key e = e.id ++ (e.namespace ++ show_i32 e.entity_type)

abbrev pub ConnectedClients : Type 0
ConnectedClients = HashMap Text Sender

unfoldable pub insert : Entity → Sender → ConnectedClients → ConnectedClients
insert entity tx clients = HashMap.insert Bytes-discrete (entity_key entity) tx clients

-- What the tasks do that `ConnectedClients::send` and `stop` spawn.
pub data Job : Type 0 where
  send : RelayPayload → Job
  stop : Entity → Job

abbrev pub is_gone : Sender → List Sender → Bool
is_gone tx [] = false
is_gone tx (g ∷ gs) = g == tx || is_gone tx gs

-- `let _ = tx.send(c)`: without a receiver the command is lost, and the failure ignored.
unfoldable pub command : List Sender → Cmd → Option Sender → List (Sender × Cmd)
command gone c none = []
command gone c (some tx) = if is_gone tx gone then [] else (tx, c) ∷ []

-- A payload without a destination makes the task of `send` panic, and nothing else.
unfoldable pub perform : List Sender → Job → ConnectedClients → List (Sender × Cmd)
unfolding command
perform gone (Job.send p) clients = elim p.dst [
  | none ↦ []
  | some dst ↦ command gone (Cmd.send p) (HashMap.get Bytes-discrete (entity_key dst) clients)
]
perform gone (Job.stop entity) clients =
    command gone Cmd.terminate (HashMap.get Bytes-discrete (entity_key entity) clients)

-- The handler that a test gives: the new state, its answer, and the tasks that it spawned.
abbrev pub Handler : Type 0 → Type 0
Handler S = S → RequestMsg → ConnectedClients → S × (Option RelayConnectResponse × List Job)

pub record World (S : Type 0) : Type 0 where
  pub state : S
  pub clients : ConnectedClients
  -- tasks that have not run
  pub jobs : List Job
  -- what was put on the channels of the streams
  pub commands : List (Sender × Cmd)
  -- the streams that are over, so that nothing receives on their channels
  pub gone : List Sender

abbrev pub over : {S : Type 0} → Sender → World S → World S
over tx w = record w { gone = tx ∷ w.gone }

-- The clients after a request on the stream with `tx`: a `ConnectRequest` is entered, and one
-- without a client id panics.
unfoldable pub enter : Sender → RequestMsg → ConnectedClients → Outcome (Unit {0}) ConnectedClients
unfolding insert
enter tx (RequestMsg.connect_request r) clients = elim r.client_id [
  | none ↦ panic
  | some entity ↦ ok (insert entity tx clients)
]
enter tx (RequestMsg.heartbeat h) clients = ok clients
enter tx (RequestMsg.payload p) clients = ok clients

-- What a stream yields, and whether it goes on.
pub data Yield : Type 0 where
  item : RelayConnectResponse → Yield
  nothing ends panics : Yield

unfoldable pub yields : Option RelayConnectResponse → Yield
yields none = Yield.nothing
yields (some r) = Yield.item r

unfoldable pub answered :
    {S : Type 0}
    → Handler S
    → RequestMsg
    → World S
    → Outcome (Unit {0}) ConnectedClients
    → World S × Yield
unfolding yields
answered handler m w (ok clients) =
    let (s, (reply, jobs)) = handler w.state m clients in
    (record w { state = s; clients = clients; jobs = w.jobs ++ jobs }, yields reply)
answered handler m w _ = (w, Yield.panics)

-- A panic ends the stream.
unfoldable pub outlived : {S : Type 0} → Sender → World S → Yield → World S
outlived tx w Yield.panics = over tx w
outlived tx w _ = w

-- One request on the stream with `tx`.
unfoldable pub on_request :
    {S : Type 0} → Handler S → Sender → RequestMsg → World S → World S × Yield
unfolding enter answered outlived
on_request handler tx m w =
    let (w', y) = answered handler m w (enter tx m w.clients) in (outlived tx w' y, y)

-- One command on the channel of a stream.
unfoldable pub on_command : Cmd → Yield
on_command (Cmd.send p) = Yield.item (record { msg = some (ResponseMsg.payload p) })
on_command Cmd.terminate = Yield.ends

abbrev pub before_end : Yield → List RelayConnectResponse → List RelayConnectResponse
before_end (Yield.item r) rest = r ∷ rest
before_end Yield.nothing rest = rest
before_end _ rest = []

-- `IntoRes`.
abbrev pub connect_response_into_res : ConnectResponse → Option RelayConnectResponse
connect_response_into_res r = some (record { msg = some (ResponseMsg.connect_response r) })

abbrev pub ack_into_res : Ack → Option RelayConnectResponse
ack_into_res a = some (record { msg = some (ResponseMsg.ack a) })

abbrev pub payload_into_res : RelayPayload → Option RelayConnectResponse
payload_into_res p = some (record { msg = some (ResponseMsg.payload p) })

abbrev pub unit_into_res : Unit {0} → Option RelayConnectResponse
unit_into_res u = none

abbrev pub option_into_res : Option RelayConnectResponse → Option RelayConnectResponse
option_into_res r = r

-- What happens next: a request on a stream; a request of which the stream is rid because a command
-- was ready while its future waited for a lock, entered or not; a stream whose next message is
-- missing or failed, where the code panics, or that its client has left; a stream that takes the
-- `Terminate` on its channel; a spawned task.
pub data Turn : Type 0 where
  request : Sender → RequestMsg → Turn
  cut_off : Sender → RequestMsg → Bool → Turn
  broken terminated : Sender → Turn
  task : Job → Turn

unfoldable pub cut_off_at :
    Bool → Outcome (Unit {0}) ConnectedClients → ConnectedClients → ConnectedClients
cut_off_at true (ok entered) clients = entered
cut_off_at _ _ clients = clients

abbrev pub is_terminate : Cmd → Bool
is_terminate Cmd.terminate = true
is_terminate (Cmd.send p) = false

abbrev pub has_terminate : Sender → List (Sender × Cmd) → Bool
has_terminate tx [] = false
has_terminate tx ((to, c) ∷ cs) = (to == tx && is_terminate c) || has_terminate tx cs

-- A stream that is over takes no request.
unfoldable pub turn : {S : Type 0} → Handler S → Turn → World S → World S
unfolding on_request cut_off_at perform
turn handler (Turn.request tx m) w = if is_gone tx w.gone then w else (on_request handler tx m w).0
turn handler (Turn.cut_off tx m entered) w =
    if is_gone tx w.gone
    then w
    else record w { clients = cut_off_at entered (enter tx m w.clients) w.clients }
turn handler (Turn.broken tx) w = over tx w
turn handler (Turn.terminated tx) w = if has_terminate tx w.commands then over tx w else w
turn handler (Turn.task j) w = record w { commands = w.commands ++ perform w.gone j w.clients }

unfoldable pub turns : {S : Type 0} → Handler S → List Turn → World S → World S
unfolding turn
turns handler [] w = w
turns handler (t ∷ ts) w = turns handler ts (turn handler t w)

-- `TestServer::new`, as far as the service goes.
unfoldable pub new : {S : Type 0} → S → World S
new state = record { state = state; clients = []; jobs = []; commands = []; gone = [] }

-- What a stream yields for the commands on its channel, up to the first that ends it.
unfoldable pub yielded : Sender → List (Sender × Cmd) → List RelayConnectResponse
unfolding on_command
yielded tx [] = []
yielded tx ((to, c) ∷ cs) =
    let rest = yielded tx cs in if to == tx then before_end (on_command c) rest else rest
