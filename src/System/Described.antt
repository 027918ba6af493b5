-- ===== src/System/Described.antt =====
-- A client at work against the description of the whole task of `run`.
use orb_relay_messages.Common.{ℕ, ◌≡◌, sym, ap, subst, ◌∙◌, List, ◌++◌}
use orb_relay_messages.Common.Outcome.{err}
use orb_relay_messages.Client.{ClientOpts}
use orb_relay_messages.Actor.Defs.{State, Effect}
use orb_relay_messages.Actor.Monad.{Up}
use orb_relay_messages.Actor.Session.{Answers, timed_out}
use orb_relay_messages.Actor.Run.{Ending, Session, initial}
use orb_relay_messages.System.{Phase, System, Reach}
use orb_relay_messages.Actor.Spec.Whole.{opened, story, nobody}
use orb_relay_messages.Actor.Spec.Opens.{connect-plays}
use orb_relay_messages.Actor.Spec.Tells.{Tells, initial-Shows, run_loop-Tells}
use orb_relay_messages.System.Replays.Runs.{RunTo, ConnectTo, IsRun, Reach-IsRun}

-- The description of the task says that it comes to this.
pub record Told (opts : ClientOpts) (e : Ending) (n : ℕ) (st : State) (all : List Effect)
    : Type 0 where
  pub rounds : List Session
  pub told :
      Tells
        (record { ending = e; state = st; effects = all; attempts = n })
        (story opts 1 nobody rounds)

-- Behind that, the stages of a connection whose greeting is still to come.
pub record ToldOpening (opts : ClientOpts) (n : ℕ) (st : State) (all : List Effect) : Type 0 where
  pub before : List Effect
  pub told : Told opts Ending.running n st before
  pub up : Up
  pub net : Answers
  pub since : List Effect
  pub together : all ≡ before ++ since
  pub waits : opened opts up net ≡ record { does = since; comes_out = err timed_out }

abbrev pub IsTold : ClientOpts → Phase → State → List Effect → Type 0
IsTold opts (Phase.connecting n) st all = Told opts Ending.running n st all
IsTold opts (Phase.serving n) st all = Told opts Ending.running n st all
IsTold opts (Phase.greeting n) st all = ToldOpening opts n st all
IsTold opts (Phase.ended e) st all = (n : ℕ) × Told opts e n st all

module _ (opts : ClientOpts) where
  RunTo-Told :
      (e : Ending) (n : ℕ) (st : State) (all : List Effect)
      → RunTo opts e n st all
      → Told opts e n st all
  RunTo-Told e n st all r = record {
    rounds = r.rounds;
    told =
        subst (λ q. Tells q (story opts 1 nobody r.rounds)) r.comes_to
          (run_loop-Tells opts 1 initial nobody r.rounds initial-Shows);
  }

  ConnectTo-Told :
      (n : ℕ) (st : State) (all : List Effect) → ConnectTo opts n st all → ToldOpening opts n st all
  ConnectTo-Told n st all c = record {
    before = c.before;
    told = RunTo-Told Ending.running n st c.before c.run_to;
    up = c.up;
    net = c.net;
    since = c.since;
    together = c.together;
    waits =
        ap (λ d. record { does = d.effects; comes_out = d.result })
          (sym (connect-plays c.up st opts c.net) ∙ c.waits);
  }

  run-IsTold :
      (p : Phase) (st : State) (all : List Effect) → IsRun opts p st all → IsTold opts p st all
  run-IsTold (Phase.connecting n) st all r = RunTo-Told _ n st all r
  run-IsTold (Phase.serving n) st all r = RunTo-Told _ n st all r
  run-IsTold (Phase.greeting n) st all c = ConnectTo-Told n st all c
  run-IsTold (Phase.ended e) st all (n, r) = (n, RunTo-Told e n st all r)

  -- Every order of the steps of a client at work, its calls, timers, channel and connections
  -- interleaved, comes to what the description of the whole task says: in every state that is
  -- reached there are rounds over which the description has the same ending, the waiters that the
  -- tables show, all effects of the actor in their order and the same count of attempts, followed by
  -- the stages of a connection that still waits for its greeting.
  pub Reach-IsTold : (s : System) → Reach opts s → IsTold opts s.phase s.state s.effects
  Reach-IsTold s r = run-IsTold s.phase s.state s.effects (Reach-IsRun opts s r)
