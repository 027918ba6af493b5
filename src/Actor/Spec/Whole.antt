-- ===== src/Actor/Spec/Whole.antt =====
-- What the task of `run` in relay-client/src/actor.rs promises over all its connections: how one
-- opens, stage by stage, what it does with all that it receives, and what follows its end.
use orb_relay_messages.Common.{
  String, ℕ, ◌+◌, ◌%◌, Bool, true, false, if◌then◌else◌, Option, none, some, List, [], ◌∷◌, ◌++◌,
}
use orb_relay_messages.Common.Bytes.{u64_mod}
use orb_relay_messages.Common.Outcome.{Outcome, ok, err, panic}
use orb_relay_messages.Amount
use orb_relay_messages.Relay.{AuthMethod, ResponseMsg, connect_request_into}
use orb_relay_messages.Client.{Err, ClientOpts}
use orb_relay_messages.Actor.Defs.{Msg, Channel, Effect}
use orb_relay_messages.Actor.Monad.{Up}
use orb_relay_messages.Actor.Session.{
  Awaited, StreamItem, Answers, Input, connect_request, dial_settings, metadata, bad_client_id,
  timed_out,
}
use orb_relay_messages.Actor.Session.Greeting.{credentials, verdict}
use orb_relay_messages.Actor.Run.{Ending, Session}
use orb_relay_messages.Actor.Spec.{Waiters, Trace, to, needs, expected}

-- What a stage does, and whether the next one follows.
pub record Stage : Type 0 where
  pub does : List Effect
  pub comes_out : Outcome Err (Unit {0})

abbrev pub passing : Outcome Err (Unit {0}) → Stage
passing r = record { does = []; comes_out = r }

abbrev pub doing : Effect → Stage
doing e = record { does = e ∷ []; comes_out = ok tt }

-- Something is put on a channel, if someone is there to receive it.
abbrev pub putting : Up → Channel → Effect → String → Stage
putting up c e context = record { does = to up c e; comes_out = needs up c context }

abbrev pub stage_then : Stage → Stage → Outcome Err (Unit {0}) → Stage
stage_then x y (ok a) = record { does = x.does ++ y.does; comes_out = y.comes_out }
stage_then x y (err e) = record { does = x.does; comes_out = err e }
stage_then x y panic = record { does = x.does; comes_out = panic }

-- The stages up to the first that fails.
abbrev pub through : List Stage → Stage
through [] = passing (ok tt)
through (x ∷ xs) = stage_then x (through xs) x.comes_out

abbrev pub no_error : Option Err → Outcome Err (Unit {0})
no_error none = ok tt
no_error (some e) = err e

abbrev pub awaited : Awaited → Outcome Err (Unit {0})
awaited Awaited.ready = ok tt
awaited (Awaited.failed e) = err e
awaited Awaited.elapsed = err timed_out

-- The client shows its credentials; without any the task panics.
abbrev pub introducing : ClientOpts → Up → Option AuthMethod → Stage
introducing opts up none = passing panic
introducing opts up (some m) =
    putting up Channel.tonic (Effect.to_tonic (connect_request_into (connect_request opts m)))
      "Failed to send RelayConnectRequest"

abbrev pub opening : ClientOpts → Up → Answers → List Stage
opening opts up net =
    passing (no_error net.endpoint_error)
    ∷ doing (Effect.dial (dial_settings opts))
    ∷ passing (awaited net.channel)
    ∷ passing (if net.is_ascii then ok tt else err bad_client_id)
    ∷ introducing opts up (credentials opts.auth net.watched)
    ∷ doing (Effect.open_stream (metadata opts))
    ∷ passing (awaited net.stream)
    ∷ []

abbrev pub handing_on : Up → ResponseMsg → Stage
handing_on up r =
    putting up Channel.actor (Effect.to_actor (Msg.relay_response r))
      "relay_actor_tx receivers unexpectedly dropped"

-- Up to the greeting, or the end of the stream, all that comes goes to the actor.
abbrev pub greeting : Up → List StreamItem → List Stage
greeting up [] = passing (err timed_out) ∷ []
greeting up (StreamItem.ended ∷ rest) = []
greeting up (StreamItem.status s ∷ rest) = passing (err (Err.tonic s)) ∷ []
greeting up (StreamItem.message none ∷ rest) = greeting up rest
greeting up (StreamItem.message (some (ResponseMsg.connect_response r)) ∷ rest) =
    passing (verdict r) ∷ []
greeting up (StreamItem.message (some (ResponseMsg.ack a)) ∷ rest) =
    handing_on up (ResponseMsg.ack a) ∷ greeting up rest
greeting up (StreamItem.message (some (ResponseMsg.payload p)) ∷ rest) =
    handing_on up (ResponseMsg.payload p) ∷ greeting up rest

abbrev pub opened : ClientOpts → Up → Answers → Stage
opened opts up net =
    let o = through (opening opts up net) in
    stage_then o (through (greeting up net.items)) o.comes_out

-- The heartbeat starts with the first connection that opens.
abbrev pub first_beat : ClientOpts → Bool → List Effect
first_beat opts true = []
first_beat opts false = Effect.later opts.heartbeat Msg.heartbeat ∷ []

abbrev pub behind_opening :
    ClientOpts → List Input → Waiters → Stage → Outcome Err (Unit {0}) → Trace
behind_opening opts is w o (ok a) =
    let t = expected opts is (record w { beating = true }) in
    record t { effects = o.does ++ (first_beat opts w.beating ++ t.effects) }
behind_opening opts is w o (err e) = record { waiters = w; effects = o.does; result = err e }
behind_opening opts is w o panic = record { waiters = w; effects = o.does; result = panic }

-- One connection, from its opening to its end.
unfoldable pub connection : ClientOpts → Session → Waiters → Trace
unfolding expected
connection opts x w =
    let o = opened opts x.up x.answers in behind_opening opts x.inputs w o o.comes_out

pub record Story : Type 0 where
  pub ending : Ending
  pub waiters : Waiters
  pub effects : List Effect
  pub attempts : ℕ

-- The end of the task that an error brings: on request, or once the limit is reached.
abbrev pub end_by : ClientOpts → ℕ → Err → Option Ending
end_by opts n Err.stop_request = some Ending.stopped
end_by opts n Err.reconnect_request = none
end_by opts n e = if Amount.le opts.max_connection_attempts n then some (Ending.failed e) else none

-- Before the next connection, unless it was asked for, there is a pause, and an attempt is counted.
abbrev pub pause : ClientOpts → Err → List Effect
pause opts Err.reconnect_request = []
pause opts e = Effect.sleep opts.connection_backoff ∷ []

abbrev pub counted : ℕ → Err → ℕ
counted n Err.reconnect_request = n
counted n e = (n + 1) % u64_mod

abbrev pub ended_so : Ending → ℕ → Trace → Story
ended_so e n t = record { ending = e; waiters = t.waiters; effects = t.effects; attempts = n }

abbrev pub behind_error : ClientOpts → ℕ → Trace → Err → Option Ending → (ℕ → Story) → Story
behind_error opts n t e (some end) rest = ended_so end n t
behind_error opts n t e none rest =
    let u = rest (counted n e) in record u { effects = (t.effects ++ pause opts e) ++ u.effects }

abbrev pub behind_connection : ClientOpts → ℕ → Trace → Outcome Err (Unit {0}) → (ℕ → Story) → Story
behind_connection opts n t (ok a) rest = ended_so Ending.running n t
behind_connection opts n t panic rest = ended_so Ending.panicked n t
behind_connection opts n t (err e) rest = behind_error opts n t e (end_by opts n e) rest

abbrev pub nobody : Waiters
nobody = record { for_ack = λ k. none; for_reply = λ k. none; beating = false }

-- All connections of the task.
unfoldable pub story : ClientOpts → ℕ → Waiters → List Session → Story
unfolding connection
story opts n w [] = record { ending = Ending.running; waiters = w; effects = []; attempts = n }
story opts n w (x ∷ xs) =
    let t = connection opts x w in
    behind_connection opts n t t.result (λ m. story opts m t.waiters xs)
