-- ===== src/System.antt =====
-- One client of relay-client/ at work: its calls, from any number of tasks, the channel of its actor,
-- the actor, its timers and its connections, in any order of their steps. Its endpoint is valid.
pub mod Keeps
pub mod Measured
pub mod Issued
pub mod Heartbeats
pub mod Meets
pub mod Sources
pub mod Upheld
pub mod Retried
pub mod Remembered
pub mod Exact
pub mod Once
pub mod Confirmed
pub mod Replays
pub mod Described
pub mod Paced
pub mod Tables
pub mod Priority
pub mod Sent
use orb_relay_messages.Common.{
  ℕ, ◌+◌, ◌≡◌, List, [], ◌∷◌, ◌++◌, Option, none, some, Bool, true, false, if◌then◌else◌, Mem,
}
use orb_relay_messages.Common.Bytes.{Bytes}
use orb_relay_messages.Common.Outcome.{Outcome, ok, err, panic}
use orb_relay_messages.Client.{Seq, Sender, QoS, SendMessage, Err, ClientOpts}
use orb_relay_messages.Actor.Defs.{State, Msg, Channel, Effect}
use orb_relay_messages.Actor.Monad.{Up, Done, Act, pure, raise, ◌>>◌, ◌>>=◌}
use orb_relay_messages.Actor.Handler.{handle_msg}
use orb_relay_messages.Actor.Session.{
  StreamItem, Answers, Received, greet_item, open_stream, start_heartbeat, receive, timed_out,
}
use orb_relay_messages.Actor.Run.{Ending, Next, after_error, initial}
use orb_relay_messages.Api
use orb_relay_messages.Api.{ActorUp, Client, RecvMessage}

-- A call of a client, or of a message that it received.
pub data Call : Type 0 where
  send ask : SendMessage → Call
  reply : RecvMessage → Bytes → QoS → Call
  stop reconnect : Call

-- Where the task of `run` is, with its count of attempts.
pub data Phase : Type 0 where
  connecting greeting serving : ℕ → Phase
  ended : Ending → Phase

pub record System : Type 0 where
  pub client : Client
  -- the number of the next channel that a call makes
  pub next : Sender
  -- what the calls under way have still to put on the channel of the actor
  pub calls : List (List Msg)
  -- the channel of the actor; of what stands on it when the task ends nothing is taken any more
  pub channel : List Msg
  pub phase : Phase
  pub state : State
  -- the messages of the timers that have not fired
  pub timers : List Msg
  -- all that the actor has done
  pub effects : List Effect

-- A message that `recv` of this client, or of a clone, gave.
pub record WasReceived (s : System) (r : RecvMessage) : Type 0 where
  pub same_client : r.client.opts ≡ s.client.opts
  pub delivered :
      Mem (Effect.to_client (record { from = r.from; payload = r.payload; seq = r.seq })) s.effects

abbrev pub IsPossible : System → Call → Type 0
IsPossible s (Call.reply r payload qos) = WasReceived s r
IsPossible s _ = Unit {0}

abbrev pub both_up : ActorUp
both_up = record { first = true; second = true }

-- The messages of a call, with `tx` for its ack or reply channel, and the client after.
unfoldable pub issued : Client → Sender → Call → List Msg × Client
issued c tx (Call.send m) = let (call, c') = Api.send c both_up tx none m in (call.msgs, c')
issued c tx (Call.ask m) = let (call, c') = Api.ask c both_up tx none m in (call.msgs, c')
issued c tx (Call.reply r payload qos) = ((Api.reply r both_up tx none payload qos).msgs, c)
issued c tx Call.stop = ((Api.stop true).msgs, c)
issued c tx Call.reconnect = ((Api.reconnect true).msgs, c)

abbrev pub armed : List Effect → List Msg
armed [] = []
armed (Effect.later d m ∷ es) = m ∷ armed es
armed (_ ∷ es) = armed es

abbrev pub handed : List Effect → List Msg
handed [] = []
handed (Effect.to_actor m ∷ es) = m ∷ handed es
handed (_ ∷ es) = handed es

abbrev pub happens : List Effect → System → System
happens es s = record s {
  channel = s.channel ++ handed es;
  timers = s.timers ++ armed es;
  effects = s.effects ++ es;
}

-- What the loop of `run` does with the end of a round.
abbrev pub moves_on : Next → System → System
moves_on (Next.finish e) s = record s { phase = Phase.ended e }
moves_on (Next.again es n) s = record (happens es s) { phase = Phase.connecting n }

unfoldable pub resumes :
    {A : Type 0} → ClientOpts → ℕ → (A → Phase) → Outcome Err A → System → System
resumes opts n to (ok a) s = record s { phase = to a }
resumes opts n to (err e) s = moves_on (after_error opts n e) s
resumes opts n to panic s = record s { phase = Phase.ended Ending.panicked }

-- Code of the actor, run under `up`, and the phase that it leads to.
abbrev pub acts : {A : Type 0} → ClientOpts → ℕ → (A → Phase) → Act A → Up → System → System
acts opts n to f up s =
    let d = f up s.state in
    resumes opts n to d.result (happens d.effects (record s { state = d.state }))

abbrev pub to_greeting : {A : Type 0} → ℕ → A → Phase
to_greeting n a = Phase.greeting n

abbrev pub to_serving : {A : Type 0} → ℕ → A → Phase
to_serving n a = Phase.serving n

-- Behind a greeting that is still awaited, and behind one that came.
abbrev pub greeted : ℕ → Bool → Phase
greeted n true = Phase.greeting n
greeted n false = Phase.serving n

abbrev pub IsRunning : Phase → Type 0
IsRunning (Phase.ended e) = ⊥
IsRunning _ = Unit {0}

-- An item of the stream before its greeting: with the greeting `connect` returns, and `main_loop`
-- starts the heartbeat.
abbrev pub go_on_greeted : ClientOpts → Bool → Act Bool
go_on_greeted opts more = if more then pure true else do start_heartbeat opts; pure false

unfoldable pub greets : ClientOpts → StreamItem → Act Bool
unfolding greet_item
greets opts i = greet_item i >>= go_on_greeted opts

-- The task itself holds a receiver of the channel to the server and of its own.
pub record IsAlive (up : Up) : Type 0 where
  pub tonic : up Channel.tonic ≡ true
  pub actor : up Channel.actor ≡ true

pub data Step (opts : ClientOpts) (s : System) : System → Type 0 where
  -- a call takes its number and makes its channel
  call :
      (c : Call)
      → IsPossible s c
      → Step opts s (record s {
        client = (issued s.client s.next c).1;
        next = s.next + 1;
        calls = s.calls ++ (issued s.client s.next c).0 ∷ [];
      })
  -- a call puts its next message on the channel
  put :
      (before after : List (List Msg)) (m : Msg) (ms : List Msg)
      → s.calls ≡ before ++ (m ∷ ms) ∷ after
      → IsRunning s.phase
      → Step opts s (record s { calls = before ++ ms ∷ after; channel = s.channel ++ m ∷ [] })
  -- a timer fires
  fire :
      (before after : List Msg) (m : Msg)
      → s.timers ≡ before ++ m ∷ after
      → IsRunning s.phase
      → Step opts s (record s { timers = before ++ after; channel = s.channel ++ m ∷ [] })
  -- the actor takes the first message
  take :
      (m : Msg) (ms : List Msg) (n : ℕ) (up : Up)
      → s.channel ≡ m ∷ ms
      → s.phase ≡ Phase.serving n
      → IsAlive up
      → Step opts s (acts opts n (to_serving n) (handle_msg opts m) up (record s { channel = ms }))
  -- the stream gives an item, whatever it is, and nothing is on the channel, which comes first
  item :
      (i : StreamItem) (n : ℕ) (up : Up)
      → s.channel ≡ []
      → s.phase ≡ Phase.serving n
      → IsAlive up
      → Step opts s (acts opts n (to_serving n) (receive opts (Received.from_stream i)) up s)
  -- a stream is opened, or fails to
  dial :
      (net : Answers) (n : ℕ) (up : Up)
      → s.phase ≡ Phase.connecting n
      → IsAlive up
      → Step opts s (acts opts n (to_greeting n) (open_stream opts net) up s)
  -- the stream gives an item before it is greeted
  greet :
      (i : StreamItem) (n : ℕ) (up : Up)
      → s.phase ≡ Phase.greeting n
      → IsAlive up
      → Step opts s (acts opts n (greeted n) (greets opts i) up s)
  -- the greeting does not come in time
  time_out :
      (n : ℕ) (up : Up)
      → s.phase ≡ Phase.greeting n
      → Step opts s (acts opts n (to_greeting {A = Unit {0}} n) (raise timed_out) up s)

-- `Client::connect`.
abbrev pub begin : ClientOpts → System
begin opts = record {
  client = Api.connect opts;
  next = 0;
  calls = [];
  channel = [];
  phase = Phase.connecting 1;
  state = initial;
  timers = [];
  effects = [];
}

pub data Reach (opts : ClientOpts) : System → Type 0 where
  start : Reach opts (begin opts)
  next_step : {s t : System} → Reach opts s → Step opts s t → Reach opts t
