-- ===== src/Actor/Run/Keeps.antt =====
-- The rule for the loop of `run`, from what every round keeps to all rounds, failures and
-- reconnects.
use orb_relay_messages.Common.{ℕ, Option, none, some, List, [], ◌∷◌, All, All-append, arith}
use orb_relay_messages.Common.Outcome.{Outcome, ok, err, panic}
use orb_relay_messages.Common.Bytes.{Text}
use orb_relay_messages.Relay.{AuthMethod, ResponseMsg, connect_request_into}
use orb_relay_messages.Client.{Err, ClientOpts}
use orb_relay_messages.Actor.Defs.{State, Dial, Msg, Effect}
use orb_relay_messages.Actor.Monad.{Done}
use orb_relay_messages.Actor.Handler.{handle_msg}
use orb_relay_messages.Actor.Session.{
  StreamItem, Received, Input, connect_request, receive, start_heartbeat,
}
use orb_relay_messages.Actor.Keeps.{Keeps, pure-Keeps, raise-Keeps, main_loop-Keeps}
use orb_relay_messages.Actor.Run.{
  Session, Report, Next, after_error, go_on, conclude, round, run_loop,
}

abbrev pub Leaves : (Effect → Type 0) → Next → Type 0
Leaves Q (Next.finish e) = Unit
Leaves Q (Next.again es n) = All Q es

pub after_error-Leaves :
    (Q : Effect → Type 0) (opts : ClientOpts) (n : ℕ) (e : Err)
    → Q (Effect.sleep opts.connection_backoff)
    → Leaves Q (after_error opts n e)
unfolding after_error
after_error-Leaves Q opts n Err.stop_request q = tt
after_error-Leaves Q opts n Err.reconnect_request q = tt
after_error-Leaves Q opts n _ q = ground arith

-- What the loop receives, in terms of the messages that it handles.
module _ (Ok : Msg → Type 0) where
  abbrev pub OkResponse : Option ResponseMsg → Type 0
  OkResponse none = Unit {0}
  OkResponse (some r) = Ok (Msg.relay_response r)

  abbrev pub OkReceived : Received → Type 0
  OkReceived (Received.from_actor msg) = Ok msg
  OkReceived (Received.from_stream (StreamItem.message r)) = OkResponse r
  OkReceived _ = Unit {0}

  abbrev pub OkInputs : List Input → Type 0
  OkInputs = All (λ i. OkReceived i.received)

  abbrev pub OkSessions : List Session → Type 0
  OkSessions = All (λ x. OkInputs x.inputs)

module _ (P : State → Type 0) (Q : Effect → Type 0) where
  abbrev pub Meets : Report → Type 0
  Meets r = P r.state × All Q r.effects

  module _ (opts : ClientOpts) (dial : (d : Dial) → Q (Effect.dial d))
      (open_stream : (h : List (Text × Text)) → Q (Effect.open_stream h))
      (introduce : (a : AuthMethod)
        → Q (Effect.to_tonic (connect_request_into (connect_request opts a))))
      (hand_on : (r : ResponseMsg) → Q (Effect.to_actor (Msg.relay_response r)))
      (sleep : Q (Effect.sleep opts.connection_backoff)) (beat : Keeps P Q (start_heartbeat opts))
      (Ok : Msg → Type 0) (each : (msg : Msg) → Ok msg → Keeps P Q (handle_msg opts msg)) where
    pub receive-Keeps : (r : Received) → OkReceived Ok r → Keeps P Q (receive opts r)
    unfolding receive
    receive-Keeps (Received.from_actor msg) h = each msg h
    receive-Keeps Received.actor_closed h = raise-Keeps _
    receive-Keeps (Received.from_stream StreamItem.ended) h = raise-Keeps _
    receive-Keeps (Received.from_stream (StreamItem.status t)) h = raise-Keeps _
    receive-Keeps (Received.from_stream (StreamItem.message none)) h = pure-Keeps tt
    receive-Keeps (Received.from_stream (StreamItem.message (some r))) h =
        each (Msg.relay_response r) h

    inputs-Keeps :
        (is : List Input) → OkInputs Ok is → All (λ i. Keeps P Q (receive opts i.received)) is
    inputs-Keeps [] h = tt
    inputs-Keeps (i ∷ is) h = (receive-Keeps i.received h.0, inputs-Keeps is h.1)

    go_on-Meets :
        (d : Done (Unit {0})) (n : ℕ) (x : Next) (rest : ℕ → Report)
        → P d.state
        → All Q d.effects
        → Leaves Q x
        → ((m : ℕ) → Meets (rest m))
        → Meets (go_on d n x rest)
    unfolding go_on
    go_on-Meets d n (Next.finish e) rest p q l h = (p, q)
    go_on-Meets d n (Next.again es m) rest p q l h =
        ((h m).0, All-append Q _ _ (All-append Q _ _ q l) (h m).1)

    conclude-Meets :
        (d : Done (Unit {0})) (n : ℕ) (r : Outcome Err (Unit {0})) (rest : ℕ → Report)
        → P d.state
        → All Q d.effects
        → ((m : ℕ) → Meets (rest m))
        → Meets (conclude opts d n r rest)
    unfolding conclude
    conclude-Meets d n (ok a) rest p q h = (p, q)
    conclude-Meets d n panic rest p q h = (p, q)
    conclude-Meets d n (err e) rest p q h =
        go_on-Meets d n (after_error opts n e) rest p q (after_error-Leaves Q opts n e sleep) h

    pub run_loop-Meets :
        (n : ℕ) (s : State) (xs : List Session)
        → OkSessions Ok xs
        → P s
        → Meets (run_loop opts n s xs)
    unfolding run_loop
    run_loop-Meets n s [] h p = (p, tt)
    run_loop-Meets n s (x ∷ xs) h p =
        let d = round opts s x in
        let k =
          main_loop-Keeps opts dial open_stream introduce hand_on x.answers x.inputs beat
            (inputs-Keeps x.inputs h.0) in
        let (p', q) = k.at x.up s p in
        conclude-Meets d n d.result _ p' q (λ m. run_loop-Meets m d.state xs h.1 p')
