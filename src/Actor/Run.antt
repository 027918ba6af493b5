-- ===== src/Actor/Run.antt =====
-- `run` and `validate_endpoint` of relay-client/src/actor.rs: the task that connects, serves, and
-- connects again.
pub mod Attempts
pub mod Keeps
pub mod Acks
pub mod Replies
pub mod Stops
pub mod WellFormed
pub mod Defaults
pub mod Heartbeats
pub mod Notified
pub mod Amortized
pub mod Pauses
use orb_relay_messages.Common.{
  ℕ, suc, ◌+◌, ◌%◌, Bool, true, false, if◌then◌else◌, Option, none, some, List, [], ◌∷◌, ◌++◌,
}
use orb_relay_messages.Common.Bytes.{Text, u64_mod, bytes, Bytes-discrete}
use orb_relay_messages.Common.Outcome.{Outcome, ok, err, panic, ◌>>=◌, ensure, ok_or}
use orb_relay_messages.Amount
use orb_relay_messages.Client.{Err, ClientOpts}
use orb_relay_messages.Actor.Defs.{State, Effect}
use orb_relay_messages.Actor.Monad.{Up, Done}
use orb_relay_messages.Actor.Session.{Answers, Input, main_loop}

-- The scheme of a URI, as the `http` crate parses it.
pub data Scheme : Type 0 where
  http https : Scheme
  other_scheme : Text → Scheme

-- `Uri::from_str`: `none` for an invalid URI, else the scheme that the URI has.
abbrev pub ParseUri : Type 0
ParseUri = Text → Option (Option Scheme)

abbrev is_https : Option Scheme → Bool
is_https (some Scheme.https) = true
is_https _ = false

unfoldable pub validate_endpoint : ParseUri → Text → Outcome Err (Unit {0})
validate_endpoint parse endpoint = do
  uri ← ok_or (parse endpoint) (Err.other "invalid relay endpoint URI")
  ensure (is_https uri) (Err.other "relay endpoint must use https")

-- One round of the loop of `run`.
pub record Session : Type 0 where
  pub up : Up
  pub answers : Answers
  pub inputs : List Input

pub data Ending : Type 0 where
  running stopped panicked : Ending
  failed : Err → Ending

pub record Report : Type 0 where
  pub ending : Ending
  pub state : State
  pub effects : List Effect
  pub attempts : ℕ

abbrev pub then_report : List Effect → Report → Report
then_report es r = record r { effects = es ++ r.effects }

abbrev pub initial : State
initial = record { pending_acks = []; pending_replies = []; heartbeat_started = false }

-- What the loop does with the error of a round: it ends, goes on at once, or goes on after a sleep
-- with one more attempt counted.
pub data Next : Type 0 where
  finish : Ending → Next
  again : List Effect → ℕ → Next

unfoldable pub after_error : ClientOpts → ℕ → Err → Next
after_error opts conn_attempts Err.stop_request = Next.finish Ending.stopped
after_error opts conn_attempts Err.reconnect_request = Next.again [] conn_attempts
after_error opts conn_attempts e =
    if Amount.le opts.max_connection_attempts conn_attempts
    then Next.finish (Ending.failed e)
    else Next.again (Effect.sleep opts.connection_backoff ∷ []) ((conn_attempts + 1) % u64_mod)

unfoldable pub go_on : Done (Unit {0}) → ℕ → Next → (ℕ → Report) → Report
go_on d n (Next.finish e) rest = record {
  ending = e;
  state = d.state;
  effects = d.effects;
  attempts = n;
}
go_on d n (Next.again es m) rest = then_report (d.effects ++ es) (rest m)

-- After a round that ended in `r`; a round that has not ended still runs.
unfoldable pub conclude :
    ClientOpts → Done (Unit {0}) → ℕ → Outcome Err (Unit {0}) → (ℕ → Report) → Report
unfolding after_error go_on
conclude opts d n (err e) rest = go_on d n (after_error opts n e) rest
conclude opts d n (ok _) rest = record {
  ending = Ending.running;
  state = d.state;
  effects = d.effects;
  attempts = n;
}
conclude opts d n panic rest = record {
  ending = Ending.panicked;
  state = d.state;
  effects = d.effects;
  attempts = n;
}

abbrev pub round : ClientOpts → State → Session → Done (Unit {0})
round opts s x = main_loop opts x.answers x.inputs x.up s

-- The loop of `run`, over the rounds that the environment gives it.
unfoldable pub run_loop : ClientOpts → ℕ → State → List Session → Report
unfolding conclude
run_loop opts n s [] = record { ending = Ending.running; state = s; effects = []; attempts = n }
run_loop opts n s (x ∷ xs) =
    let d = round opts s x in conclude opts d n d.result (λ m. run_loop opts m d.state xs)

unfoldable pub start : ClientOpts → Outcome Err (Unit {0}) → List Session → Report
unfolding run_loop
start opts (err e) xs = record {
  ending = Ending.failed e;
  state = initial;
  effects = [];
  attempts = 0;
}
start opts panic xs = record {
  ending = Ending.panicked;
  state = initial;
  effects = [];
  attempts = 0;
}
start opts (ok _) xs = run_loop opts 1 initial xs

unfoldable pub run : ParseUri → ClientOpts → List Session → Report
unfolding validate_endpoint start
run parse opts xs = start opts (validate_endpoint parse opts.endpoint) xs
