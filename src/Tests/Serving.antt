-- ===== src/Tests/Serving.antt =====
-- test-utils/src/lib.rs on concrete clients, with a handler that relays payloads.
use orb_relay_messages.Common.{
  ℕ_discrete, ◌⊎◌, inl, inr, List, ℕ, ◌+◌, ◌≡◌, refl, true, none, some, [], ◌∷◌, All,
}
use orb_relay_messages.Common.HashMap
use orb_relay_messages.Common.Bytes.{Bytes, bytes, Bytes-discrete}
use orb_relay_messages.Relay.{Entity, RelayPayload, ConnectRequest, RequestMsg}
use orb_relay_messages.Server.{
  Cmd, entity_key, show_i32, Job, Handler, World, Turn, turn, turns, new, connect_response_into_res,
}
use orb_relay_messages.Server.Delivery.{IsAddressed, commands-IsAddressed}

-- It counts the requests, confirms every connection and relays every payload.
abbrev pub relay : Handler ℕ
relay n (RequestMsg.connect_request r) clients =
    (n + 1, (connect_response_into_res (record { client_id = []; success = true; error = [] }), []))
relay n (RequestMsg.payload p) clients = (n + 1, (none, Job.send p ∷ []))
relay n (RequestMsg.heartbeat h) clients = (n + 1, (none, []))

abbrev entity : Bytes → Bytes → Entity
entity id namespace = record { id = id; entity_type = 2; namespace = namespace }

abbrev orb_1 : Entity
orb_1 = entity (bytes "1") (bytes "a")

abbrev hello : ConnectRequest
hello = record { client_id = some orb_1; auth_method = none }

abbrev to_orb : RelayPayload
to_orb = record { src = none; dst = some orb_1; seq = 5; payload = none }

abbrev empty : World ℕ
empty = record { state = 0; clients = []; jobs = []; commands = []; gone = [] }

abbrev served : World ℕ
served =
    turns relay (Turn.request 8 (RequestMsg.payload to_orb) ∷ [])
      (turn relay (Turn.request 7 (RequestMsg.connect_request hello)) empty)

program : Unit {0}
unfolding turns entity_key new HashMap.get HashMap.insert Bytes-discrete ℕ_discrete
program = tt

still_there : (turn relay (Turn.task (Job.send to_orb)) served).commands ≡ (7, Cmd.send to_orb) ∷ []
unfolding program
still_there = refl

-- A stream that has broken gets nothing.
broken_gets_nothing :
    (turn relay (Turn.task (Job.send to_orb)) (turn relay (Turn.broken 7) served)).commands ≡ []
unfolding program
broken_gets_nothing = refl

-- Two entities with one key.
keys_meet :
    entity_key (entity (bytes "1") (bytes "2a")) ≡ entity_key (entity (bytes "12") (bytes "a"))
unfolding entity_key
keys_meet = refl

negative_type : show_i32 (4294967295) ≡ bytes "-1"
unfolding show_i32
negative_type = refl

-- Stream 7 is that of the first Orb.
abbrev IsOrbStream : Bytes → ℕ → Type 0
IsOrbStream key tx = (key ≡ entity_key orb_1) × (tx ≡ 7)

-- What the tasks do here.
abbrev IsDone : Job → Type 0
IsDone j = (j ≡ Job.send to_orb) ⊎ (j ≡ Job.stop orb_1)

abbrev run_of_server : List Turn
run_of_server =
    Turn.request 7 (RequestMsg.connect_request hello)
    ∷ Turn.request 8 (RequestMsg.payload to_orb)
    ∷ Turn.task (Job.send to_orb)
    ∷ Turn.task (Job.stop orb_1)
    ∷ Turn.terminated 7
    ∷ []

commands-IsAddressed_example :
    All (IsAddressed IsOrbStream IsDone) (turns relay run_of_server (new 0)).commands
commands-IsAddressed_example =
    commands-IsAddressed IsOrbStream IsDone relay 0 run_of_server
      ((refl, refl), (tt, (inl refl, (inr refl, (tt, tt)))))

both_commands :
    (turns relay run_of_server (new 0)).commands ≡ (7, Cmd.send to_orb) ∷ (7, Cmd.terminate) ∷ []
unfolding program
both_commands = refl
