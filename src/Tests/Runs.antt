-- ===== src/Tests/Runs.antt =====
-- The task of relay-client/src/actor.rs on concrete connections.
use orb_relay_messages.Common.{
  ◌≡◌, refl, true, false, none, some, List, [], ◌∷◌, ◌++◌, arith, if◌then◌else◌, ◌==◌,
}
use orb_relay_messages.Common.Bytes.{bytes}
use orb_relay_messages.Common.Outcome.{ok, err}
use orb_relay_messages.Amount
use orb_relay_messages.Amount.{Amount, Allows, Amount-Allows}
use orb_relay_messages.Client.{Err}
use orb_relay_messages.Actor.Defs.{Msg}
use orb_relay_messages.Relay.{
  RelayConnectRequest, payload_into, AuthMethod, ConnectResponse, connect_request_into,
}
use orb_relay_messages.Actor.Session.{Answers, Received, Input, connect_request, connect, main_loop}
use orb_relay_messages.Actor.Session.Greeting.{greeting_after}
use orb_relay_messages.Actor.Run.{
  ParseUri, Scheme, validate_endpoint, Session, Ending, initial, run_loop, run, then_report,
}
use orb_relay_messages.Actor.Run.Attempts.{Counts, AllFail, gives_up}
use orb_relay_messages.Actor.Run.Stops.{run_insecure, reconnect_goes_on}
use orb_relay_messages.Exchange.{tonic_queue, forwarded}
use orb_relay_messages.Exchange.Reopen.{connect_request_last}
use orb_relay_messages.Client.{relay_payload}
use orb_relay_messages.Tests.Fixtures.{three, up, greeting, session, question, ack_of, others}

program : Unit {0}
unfolding run main_loop Amount.le
program = tt

-- `tries_to_connect_the_expected_number_of_times_then_gives_up`
abbrev refusals : List Session
refusals = session false [] ∷ session false [] ∷ session false [] ∷ []

refusals-AllFail : AllFail three initial refusals
unfolding program
refusals-AllFail =
    ((Err.other _, refl, tt), ((Err.other _, refl, tt), ((Err.other _, refl, tt), tt)))

gives_up_example :
    (e : Err) × Counts e
    × ((run_loop three 1 initial (refusals ++ [])).ending ≡ Ending.failed e)
    × ((run_loop three 1 initial (refusals ++ [])).attempts ≡ 3)
gives_up_example =
    gives_up three 3 refl 1 initial refusals [] (omega arith) refusals-AllFail (omega arith)

abbrev beating : List Session
beating = session true (Received.from_actor Msg.heartbeat ∷ []) ∷ others

-- A parser that knows no scheme but http.
abbrev only_http : ParseUri
only_http t = some (some Scheme.http)

run_insecure_example :
    (e : Err) × (run only_http three others
      ≡ record { ending = Ending.failed e; state = initial; effects = []; attempts = 0 })
run_insecure_example = run_insecure only_http three others (λ e. cc)

abbrev reconnect_input : Input
reconnect_input = record { up = up; received = Received.from_actor Msg.reconnect }

reconnect_goes_on_example :
    run_loop three 1 initial
      (record { up = up; answers = greeting true; inputs = [] ++ reconnect_input ∷ [] } ∷ others)
    ≡ then_report
        (main_loop three (greeting true) [] up initial).effects
        (run_loop three 1 (main_loop three (greeting true) [] up initial).state others)
unfolding program
reconnect_goes_on_example =
    reconnect_goes_on three (greeting true) [] [] up up 1 initial others refl

-- An acknowledgement ahead of the greeting.
abbrev early_ack : Answers
early_ack = record (greeting true) { items = greeting_after (ack_of 7 ∷ []) greeted [] }
  where
    greeted : ConnectResponse
    greeted = record { client_id = []; success = true; error = [] }

-- A message that the connection before has left.
abbrev left_over : List RelayConnectRequest
left_over = payload_into (relay_payload three question 6) ∷ []

connect_request_last_example :
    forwarded (left_over ++ tonic_queue (connect three early_ack up initial).effects)
    ≡ payload_into (relay_payload three question 6)
      ∷ connect_request_into (connect_request three (AuthMethod.token []))
      ∷ []
connect_request_last_example =
    connect_request_last up initial three early_ack (AuthMethod.token []) (ack_of 7 ∷ [])
      (record { client_id = []; success = true; error = [] }) [] left_over refl refl refl refl refl
      refl (tt, tt) refl refl

-- The unit tests of relay-client/src/actor.rs, for a parser of URIs.
abbrev HttpsEndpointIsAccepted : ParseUri → Type 0
HttpsEndpointIsAccepted parse = validate_endpoint parse (bytes "https://relay.example.com") ≡ ok tt

abbrev HttpEndpointIsRejected : ParseUri → Type 0
HttpEndpointIsRejected parse =
    validate_endpoint parse (bytes "http://127.0.0.1:8080")
    ≡ err (Err.other "relay endpoint must use https")

-- A parser that looks at the fifth byte.
abbrev by_fifth : ParseUri
by_fifth (a ∷ b ∷ c ∷ d ∷ e ∷ rest) = some (some (if e == 115 then Scheme.https else Scheme.http))
by_fifth _ = none

endpoint_tests_pass : HttpsEndpointIsAccepted by_fifth × HttpEndpointIsRejected by_fifth
unfolding validate_endpoint
endpoint_tests_pass = (refl, refl)
