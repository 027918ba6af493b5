-- ===== src/System/Replays/Runs.antt =====
-- Every order of the steps of a client at work as a run of `run_loop`, phase by phase.
use orb_relay_messages.Common.{ℕ, ◌≡◌, sym, ap, subst, ◌∙◌, List, [], ◌∷◌, ◌++◌, append-nil}
use orb_relay_messages.Common.Outcome.{ok, err}
use orb_relay_messages.Client.{ClientOpts}
use orb_relay_messages.Actor.Defs.{State, Effect}
use orb_relay_messages.Actor.Monad.{Up}
use orb_relay_messages.Actor.Session.{connect, Answers, await_greeting, serve, timed_out}
use orb_relay_messages.Actor.Run.{Ending, Session, conclude, run_loop, initial}
use orb_relay_messages.System.{Phase, System, Reach}
use orb_relay_messages.Actor.Spec.Opens.{connect-plays}
use orb_relay_messages.System.Replays.{Continues, last_round, Greets, Serves, Replays}
use orb_relay_messages.System.Replays.Orders.{Reach-IsReplay}

-- A run of `run_loop` that comes to this.
pub record RunTo (opts : ClientOpts) (e : Ending) (n : ℕ) (st : State) (all : List Effect)
    : Type 0 where
  pub rounds : List Session
  pub comes_to :
      run_loop opts 1 initial rounds
      ≡ record { ending = e; state = st; effects = all; attempts = n }

-- Behind such a run, a connection whose greeting is still to come.
pub record ConnectTo (opts : ClientOpts) (n : ℕ) (st : State) (all : List Effect) : Type 0 where
  pub before : List Effect
  pub run_to : RunTo opts Ending.running n st before
  pub up : Up
  pub net : Answers
  pub since : List Effect
  pub together : all ≡ before ++ since
  pub waits :
      connect opts net up st ≡ record { state = st; effects = since; result = err timed_out }

abbrev pub IsRun : ClientOpts → Phase → State → List Effect → Type 0
IsRun opts (Phase.connecting n) st all = RunTo opts Ending.running n st all
IsRun opts (Phase.serving n) st all = RunTo opts Ending.running n st all
IsRun opts (Phase.greeting n) st all = ConnectTo opts n st all
IsRun opts (Phase.ended e) st all = (n : ℕ) × RunTo opts e n st all

module _ (opts : ClientOpts) where
  so_far-RunTo :
      (xs : List Session) (n : ℕ) (st : State) (all : List Effect)
      → Continues opts xs all n st
      → RunTo opts Ending.running n st all
  unfolding run_loop
  so_far-RunTo xs n st all c = record {
    rounds = xs ++ [];
    comes_to =
        c []
        ∙ ap (λ es. record { ending = Ending.running; state = st; effects = es; attempts = n })
            (append-nil all);
  }

  Serves-RunTo :
      (n : ℕ) (s : System)
      → Serves opts n s.state s.effects
      → RunTo opts Ending.running n s.state s.effects
  unfolding conclude serve
  Serves-RunTo n s v =
      let x : Session = record { up = v.up; answers = v.net; inputs = v.inputs ++ [] } in
      record {
        rounds = v.behind.rounds ++ x ∷ [];
        comes_to =
            last_round opts v.behind x (v.since ++ []) s with_nothing (ok tt) (v.serves []) []
            ∙ ap
                (λ es. record {
                  ending = Ending.running;
                  state = s.state;
                  effects = es;
                  attempts = n;
                })
                (sym with_nothing);
      }
    where
      with_nothing : s.effects ≡ v.behind.before ++ (v.since ++ [])
      with_nothing = v.together ∙ ap (λ es. v.behind.before ++ es) (sym (append-nil v.since))

  Greets-ConnectTo :
      (n : ℕ) (s : System) → Greets opts n s.state s.effects → ConnectTo opts n s.state s.effects
  unfolding await_greeting
  Greets-ConnectTo n s v =
      let net = record v.net { items = v.items ++ [] } in
      let same : v.behind.state ≡ s.state =
        ap (λ d. d.state) (sym (connect-plays v.up v.behind.state opts net) ∙ v.opens []) in
      record {
        before = v.behind.before;
        run_to =
            subst (λ st. RunTo opts Ending.running n st v.behind.before) same
              (so_far-RunTo v.behind.rounds n v.behind.state v.behind.before v.behind.so_far);
        up = v.up;
        net = net;
        since = v.since ++ [];
        together = v.together ∙ ap (λ es. v.behind.before ++ es) (sym (append-nil v.since));
        waits = ap (connect opts net v.up) (sym same) ∙ v.opens [];
      }

  replay-IsRun :
      (p : Phase) (s : System) → Replays opts p s.state s.effects → IsRun opts p s.state s.effects
  replay-IsRun (Phase.connecting n) s w = so_far-RunTo w.rounds n s.state s.effects w.so_far
  replay-IsRun (Phase.serving n) s v = Serves-RunTo n s v
  replay-IsRun (Phase.greeting n) s v = Greets-ConnectTo n s v
  replay-IsRun (Phase.ended e) s d = (d.attempts, record { rounds = d.rounds; comes_to = d.ends })

  -- In every state that a client at work reaches, the state and the effects are those of `run_loop`
  -- over some rounds, with its ending and its count of attempts, followed by those of a connection
  -- that still waits for its greeting.
  pub Reach-IsRun : (s : System) → Reach opts s → IsRun opts s.phase s.state s.effects
  Reach-IsRun s r = replay-IsRun s.phase s (Reach-IsReplay opts r)
