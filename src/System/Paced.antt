-- ===== src/System/Paced.antt =====
-- How often a client at work connects and pauses.
use orb_relay_messages.Common.{ℕ, ◌+◌, ◌≤◌, ◌<◌, ◌≡◌, sym, ap, subst, ◌∙◌, List, arith}
use orb_relay_messages.Common.Bytes.{u64_mod}
use orb_relay_messages.Amount.{Amount}
use orb_relay_messages.Client.{ClientOpts}
use orb_relay_messages.Actor.Defs.{State, Effect}
use orb_relay_messages.Actor.Run.{Ending, initial}
use orb_relay_messages.Actor.Run.Amortized.{total-append}
use orb_relay_messages.Actor.Run.Pauses.{
  pauses, connect-pauses, Exhausts, IsPaced, run_loop-IsPaced, is_pause,
}
use orb_relay_messages.System.{Phase, System, Reach}
use orb_relay_messages.System.Replays.Runs.{RunTo, IsRun, Reach-IsRun}

-- A running task has counted one attempt more than its pauses; a failed one has used up the limit.
abbrev pub Paces : ℕ → Phase → ℕ → Type 0
Paces m (Phase.connecting n) z = (n ≡ z + 1) × (n ≤ m)
Paces m (Phase.greeting n) z = (n ≡ z + 1) × (n ≤ m)
Paces m (Phase.serving n) z = (n ≡ z + 1) × (n ≤ m)
Paces m (Phase.ended (Ending.failed e)) z = z + 1 ≡ m
Paces m (Phase.ended e) z = z + 1 ≤ m

module _ (opts : ClientOpts) (m : ℕ) (bound : opts.max_connection_attempts ≡ Amount.val m)
    (some_attempt : 1 ≤ m) (small : m < u64_mod) where
  record Counts (e : Ending) (n : ℕ) (all : List Effect) : Type 0 where
    counted : n ≡ pauses all + 1
    within : n ≤ m
    exhausts : Exhausts m e n

  RunTo-Counts :
      (e : Ending) (n : ℕ) (st : State) (all : List Effect) → RunTo opts e n st all → Counts e n all
  RunTo-Counts e n st all r =
      let k =
        subst (IsPaced opts m bound small 1) r.comes_to
          (run_loop-IsPaced opts m bound small 1 initial r.rounds) in
      record {
        counted = omega (arith, k.counted);
        within = omega (arith, k.within, some_attempt);
        exhausts = k.exhausts;
      }

  run-Paces :
      (p : Phase) (st : State) (all : List Effect) → IsRun opts p st all → Paces m p (pauses all)
  run-Paces (Phase.connecting n) st all r =
      let k = RunTo-Counts Ending.running n st all r in (k.counted, k.within)
  run-Paces (Phase.serving n) st all r =
      let k = RunTo-Counts Ending.running n st all r in (k.counted, k.within)
  run-Paces (Phase.greeting n) st all c =
      let k = RunTo-Counts Ending.running n st c.before c.run_to in
      let quiet : pauses c.since ≡ 0 =
        ap (λ d. pauses d.effects) (sym c.waits) ∙ connect-pauses opts c.net c.up st in
      let same : pauses all ≡ pauses c.before =
        ap pauses c.together ∙ total-append is_pause c.before c.since ∙ omega (arith, quiet) in
      (k.counted ∙ omega (arith, same), k.within)
  run-Paces (Phase.ended (Ending.failed e)) st all (n, r) =
      let k = RunTo-Counts (Ending.failed e) n st all r in
      omega (arith, k.counted, k.within, k.exhausts)
  run-Paces (Phase.ended Ending.running) st all (n, r) =
      let k = RunTo-Counts Ending.running n st all r in omega (arith, k.counted, k.within)
  run-Paces (Phase.ended Ending.stopped) st all (n, r) =
      let k = RunTo-Counts Ending.stopped n st all r in omega (arith, k.counted, k.within)
  run-Paces (Phase.ended Ending.panicked) st all (n, r) =
      let k = RunTo-Counts Ending.panicked n st all r in omega (arith, k.counted, k.within)

  -- With a limit of one attempt or more, in every state that a client at work reaches, whatever was
  -- called, received and answered: a running task has counted one attempt more than it has paused,
  -- within the limit, so that its count never wraps around; a task that failed has paused exactly one
  -- time less than the limit, so that it gave up neither early nor late; and one that ended otherwise
  -- has paused fewer times than the limit.
  pub attempts_paced : (s : System) → Reach opts s → Paces m s.phase (pauses s.effects)
  attempts_paced s r = run-Paces s.phase s.state s.effects (Reach-IsRun opts s r)
