-- ===== src/System/Tables.antt =====
-- The tables of the actor of a client at work.
use orb_relay_messages.Common.{List}
use orb_relay_messages.Client.{ClientOpts}
use orb_relay_messages.Actor.Defs.{State, Effect}
use orb_relay_messages.Common.{ℕ, subst}
use orb_relay_messages.Actor.Run.{Ending, initial}
use orb_relay_messages.Actor.Run.WellFormed.{IsWellFormed, run_loop-IsWellFormed}
use orb_relay_messages.System.{Phase, System, Reach}
use orb_relay_messages.System.Replays.Runs.{RunTo, IsRun, Reach-IsRun}

initial-IsWellFormed : IsWellFormed initial
initial-IsWellFormed = record { acks = tt; replies = tt; targets = tt }

module _ (opts : ClientOpts) where
  RunTo-IsWellFormed :
      (e : Ending) (n : ℕ) (st : State) (all : List Effect)
      → RunTo opts e n st all
      → IsWellFormed st
  RunTo-IsWellFormed e n st all r =
      subst (λ q. IsWellFormed q.state) r.comes_to
        (run_loop-IsWellFormed opts 1 initial r.rounds initial-IsWellFormed)

  run-IsWellFormed :
      (p : Phase) (st : State) (all : List Effect) → IsRun opts p st all → IsWellFormed st
  run-IsWellFormed (Phase.connecting n) st all r = RunTo-IsWellFormed _ n st all r
  run-IsWellFormed (Phase.serving n) st all r = RunTo-IsWellFormed _ n st all r
  run-IsWellFormed (Phase.greeting n) st all c = RunTo-IsWellFormed _ n st c.before c.run_to
  run-IsWellFormed (Phase.ended e) st all (n, r) = RunTo-IsWellFormed e n st all r

  -- In every state that a client at work reaches the tables of waiting senders are well-formed: no
  -- number and no pair of a client and a number stands twice, and a question waits under the client
  -- that it went to.
  pub tables-IsWellFormed : (s : System) → Reach opts s → IsWellFormed s.state
  tables-IsWellFormed s r = run-IsWellFormed s.phase s.state s.effects (Reach-IsRun opts s r)
