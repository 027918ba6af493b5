-- ===== src/System/Priority.antt =====
-- The order in which the actor of a client at work takes messages: its channel comes before the
-- stream, and a request to stop ends the task.
pub mod Served
pub mod Taken
pub mod Stops
use orb_relay_messages.Common.{
  All, ℕ, ◌≡◌, refl, sym, ap, subst, ◌∙◌, append-nil, append_assoc, ◌⊎◌, inl, inr, List, [], ◌∷◌,
  ◌++◌,
}
use orb_relay_messages.Common.Outcome.{Outcome, ok, err, panic}
use orb_relay_messages.Client.{Err, ClientOpts}
use orb_relay_messages.Actor.Defs.{State, Msg, Effect}
use orb_relay_messages.Actor.Monad.{Up, Done, Act, continue, prefix}
use orb_relay_messages.Actor.Handler.{handle_msg}
use orb_relay_messages.Actor.Session.{Received, Input, receive, serve}
use orb_relay_messages.Actor.Run.{Ending, after_error}
use orb_relay_messages.System.{
  IsAlive, Phase, System, Step, IsRunning, resumes, acts, happens, handed, to_serving,
}

-- Any steps, one after the other.
pub data Steps (opts : ClientOpts) (s : System) : System → Type 0 where
  none_yet : Steps opts s s
  and_then : {t u : System} → Steps opts s t → Step opts t u → Steps opts s u

-- Messages, each with the channels that had a receiver when it was handled.
abbrev pub inputs_of : List (Up × Msg) → List Input
inputs_of [] = []
inputs_of ((up, m) ∷ ms) = record { up = up; received = Received.from_actor m } ∷ inputs_of ms

abbrev pub messages_of : List (Up × Msg) → List Msg
messages_of [] = []
messages_of ((up, m) ∷ ms) = m ∷ messages_of ms

abbrev pub IsFailure : Outcome Err (Unit {0}) → Type 0
IsFailure (ok a) = ⊥
IsFailure _ = Unit {0}

abbrev pub AliveAt : Up × Msg → Type 0
AliveAt (up, m) = IsAlive up

module _ (opts : ClientOpts) (up : Up) where
  -- The actor still serves, and has handled, one after the other, messages that were ahead.
  pub record Heeds (n : ℕ) (s : System) (ahead : List Msg) (t : System) : Type 0 where
    pub handled : List (Up × Msg)
    pub todo : List Msg
    pub behind : List Msg
    pub since : List Effect
    pub split : ahead ≡ messages_of handled ++ todo
    pub channel : t.channel ≡ todo ++ Msg.stop ∷ behind
    pub phase : t.phase ≡ Phase.serving n
    pub goes :
        serve opts (inputs_of handled) up s.state
        ≡ record { state = t.state; effects = since; result = ok tt }
    pub together : t.effects ≡ s.effects ++ since
    pub alive : All AliveAt handled

  -- It has handled them all, and has stopped.
  pub record HasStopped (s : System) (ahead : List Msg) (t : System) : Type 0 where
    pub handled : List (Up × Msg)
    pub since : List Effect
    pub all : ahead ≡ messages_of handled
    pub phase : t.phase ≡ Phase.ended Ending.stopped
    pub goes :
        serve opts (inputs_of handled) up s.state
        ≡ record { state = t.state; effects = since; result = ok tt }
    pub together : t.effects ≡ s.effects ++ since
    pub alive : All AliveAt handled

  -- One of them, taken in the step to `cut`, has ended the connection.
  pub record IsCutShort (n : ℕ) (s : System) (ahead : List Msg) (t : System) : Type 0 where
    pub last : System
    pub reached : Steps opts s last
    pub heeds : Heeds n s ahead last
    pub taken : Msg
    pub others : List Msg
    pub is_ahead : heeds.todo ≡ taken ∷ others
    pub given : Up
    pub given_alive : IsAlive given
    pub fails : IsFailure (handle_msg opts taken given last.state).result
    pub cut : System
    pub step :
        cut
        ≡ acts opts n
            (to_serving n)
            (handle_msg opts taken)
            given
            (record last { channel = others ++ Msg.stop ∷ heeds.behind })
    pub goes_on : Steps opts cut t

  abbrev pub StopComes : ℕ → System → List Msg → System → Type 0
  StopComes n s ahead t = Heeds n s ahead t ⊎ (HasStopped s ahead t ⊎ IsCutShort n s ahead t)
