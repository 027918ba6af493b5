-- ===== src/System/Replays.antt =====
-- A client at work against the task of `run` over lists: each order of its steps is a run of
-- `run_loop` over some rounds.
pub mod Receives
pub mod Dials
pub mod Greetings
pub mod Orders
pub mod Runs
use orb_relay_messages.Common.{
  if◌then◌else◌, arith, ℕ, ◌≡◌, refl, sym, ap, subst, ◌∙◌, Bool, true, false, Option, none, some,
  List, [], ◌∷◌, ◌++◌, append-nil, append_assoc,
}
use orb_relay_messages.Common.Outcome.{Outcome, ok, err, panic}
use orb_relay_messages.Relay.{ResponseMsg}
use orb_relay_messages.Client.{Err, ClientOpts}
use orb_relay_messages.Actor.Defs.{State, Msg, Channel, Effect}
use orb_relay_messages.Actor.Monad.{pure, Up, Done, Act, prefix, continue, ◌>>=◌, raise}
use orb_relay_messages.Actor.Handler.{handle_msg}
use orb_relay_messages.Actor.Session.{
  StreamItem, Answers, Received, Input, greet, greet_item, await_greeting, open_stream, connect,
  receive, serve, start_heartbeat, main_loop, timed_out,
}
use orb_relay_messages.Actor.Run.{
  Ending, Session, Report, Next, after_error, go_on, conclude, then_report, round, run_loop,
  initial,
}
use orb_relay_messages.System.{
  IsAlive, Phase, System, happens, moves_on, resumes, acts, greets, go_on_greeted, greeted,
  to_greeting, to_serving, Step, Reach,
}

module _ (opts : ClientOpts) where
  -- Over these rounds the loop did this, and it goes on from there.
  abbrev pub Continues : List Session → List Effect → ℕ → State → Type 0
  Continues xs es n s =
      (ys : List Session)
      → run_loop opts 1 initial (xs ++ ys) ≡ then_report es (run_loop opts n s ys)

  -- Between two rounds.
  pub record Waits (n : ℕ) (st : State) (all : List Effect) : Type 0 where
    pub rounds : List Session
    pub so_far : Continues rounds all n st

  -- Some rounds, and where the loop was behind them.
  pub record Behind (n : ℕ) : Type 0 where
    pub rounds : List Session
    pub before : List Effect
    pub state : State
    pub so_far : Continues rounds before n state

  -- Before the greeting: what is left is to be read.
  pub record Greets (n : ℕ) (st : State) (all : List Effect) : Type 0 where
    pub behind : Behind n
    pub up : Up
    pub alive : IsAlive up
    pub net : Answers
    pub items : List StreamItem
    pub since : List Effect
    pub together : all ≡ behind.before ++ since
    pub opens :
        (more : List StreamItem)
        → connect opts (record net { items = items ++ more }) up behind.state
          ≡ prefix since (await_greeting more up st)

  -- In the loop of `main_loop`: what is left is to be received.
  pub record Serves (n : ℕ) (st : State) (all : List Effect) : Type 0 where
    pub behind : Behind n
    pub up : Up
    pub net : Answers
    pub inputs : List Input
    pub since : List Effect
    pub together : all ≡ behind.before ++ since
    pub serves :
        (more : List Input)
        → main_loop opts net (inputs ++ more) up behind.state ≡ prefix since (serve opts more up st)

  pub record Ended (e : Ending) (st : State) (all : List Effect) : Type 0 where
    pub rounds : List Session
    pub attempts : ℕ
    pub ends :
        run_loop opts 1 initial rounds
        ≡ record { ending = e; state = st; effects = all; attempts = attempts }

  abbrev pub Replays : Phase → State → List Effect → Type 0
  Replays (Phase.connecting n) = Waits n
  Replays (Phase.greeting n) = Greets n
  Replays (Phase.serving n) = Serves n
  Replays (Phase.ended e) = Ended e

  abbrev pub IsReplay : System → Type 0
  IsReplay s = Replays s.phase s.state s.effects

  reports :
      (b c e : List Effect) (r : Report)
      → then_report b (then_report (c ++ e) r) ≡ then_report ((b ++ c) ++ e) r
  reports b c e r =
      ap (λ es. record r { effects = es })
        (sym (append_assoc b (c ++ e) r.effects)
          ∙ ap (λ q. q ++ r.effects) (sym (append_assoc b c e)))

  -- A last round that fails or panics is followed by what `after_error` says.
  module _ {n : ℕ} (b : Behind n) (x : Session) (since : List Effect) (s : System)
      (together : s.effects ≡ b.before ++ since) where
    abbrev done : Outcome Err (Unit {0}) → Done (Unit {0})
    done r = record { state = s.state; effects = since; result = r }

    pub last_round :
        (r : Outcome Err (Unit {0}))
        → round opts b.state x ≡ done r
        → (ys : List Session)
        → run_loop opts 1 initial (b.rounds ++ x ∷ ys)
          ≡ then_report b.before (conclude opts (done r) n r (λ m. run_loop opts m s.state ys))
    unfolding run_loop
    last_round r e ys =
        b.so_far (x ∷ ys)
        ∙ ap
            (λ (d : Done (Unit {0})).
              then_report b.before (conclude opts d n d.result (λ m. run_loop opts m d.state ys)))
            e

    pub panicked : round opts b.state x ≡ done panic → Ended Ending.panicked s.state s.effects
    unfolding conclude
    panicked e = record {
      rounds = b.rounds ++ x ∷ [];
      attempts = n;
      ends = rw together (last_round panic e []);
    }

    pub failed :
        (er : Err)
        → round opts b.state x ≡ done (err er)
        → (next : Next) → after_error opts n er ≡ next
        → IsReplay (moves_on next s)
    unfolding conclude
    failed er e (Next.finish en) a = record {
      rounds = b.rounds ++ x ∷ [];
      attempts = n;
      ends = rw together (last_round (err er) e [] ∙ rw (a, go_on) refl);
    }
    failed er e (Next.again es m) a = record {
      rounds = b.rounds ++ x ∷ [];
      so_far = λ ys.
          ap (run_loop opts 1 initial) (append_assoc b.rounds (x ∷ []) ys)
          ∙ last_round (err er) e ys
          ∙ rw (together, a, go_on) (reports b.before since es (run_loop opts m s.state ys));
    }

  -- What an action leaves, in a system.
  abbrev pub leaves : {A : Type 0} → ℕ → (A → Phase) → System → Done A → System
  leaves n to s d = resumes opts n to d.result (happens d.effects (record s { state = d.state }))

  pub more_effects :
      {all : List Effect} (before since es : List Effect)
      → all ≡ before ++ since
      → all ++ es ≡ before ++ (since ++ es)
  more_effects before since es e = ap (λ q. q ++ es) e ∙ append_assoc before since es

  pub prefix-prefix :
      {A : Type 0} (es fs : List Effect) (d : Done A)
      → prefix es (prefix fs d) ≡ prefix (es ++ fs) d
  prefix-prefix es fs d = ap (λ q. record d { effects = q }) (sym (append_assoc es fs d.effects))
