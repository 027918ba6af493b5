-- ===== src/System/Replays/Dials.antt =====
-- A connection that is opened, as the start of a round of `run_loop`.
use orb_relay_messages.Common.{ℕ, ◌≡◌, refl, ap, List, []}
use orb_relay_messages.Common.Outcome.{Outcome, ok, err, panic}
use orb_relay_messages.Client.{Err, ClientOpts}
use orb_relay_messages.Actor.Monad.{Up, Done, continue, ◌>>=◌}
use orb_relay_messages.Actor.Session.{
  StreamItem, Answers, await_greeting, open_stream, connect, serve, start_heartbeat, main_loop,
}
use orb_relay_messages.Actor.Run.{Session, after_error, round}
use orb_relay_messages.System.{IsAlive, System, happens, resumes, to_greeting}
use orb_relay_messages.System.Replays.{Waits, Behind, IsReplay, panicked, failed, leaves}

module _ (opts : ClientOpts) where
  module _ (n : ℕ) (s : System) (w : Waits opts n s.state s.effects) (net : Answers) (up : Up)
      (alive : IsAlive up) where
    abbrev o : Done (Unit {0})
    o = open_stream opts net up s.state

    abbrev here : Behind opts n
    here = record { rounds = w.rounds; before = s.effects; state = s.state; so_far = w.so_far }

    abbrev first_round : Session
    first_round = record { up = up; answers = net; inputs = [] }

    abbrev opened : System
    opened = happens o.effects (record s { state = o.state })

    connected :
        (more : List StreamItem) (r : Outcome Err (Unit {0}))
        → o.result ≡ r
        → connect opts (record net { items = more }) up s.state
          ≡ continue up o.state o.effects (λ _. await_greeting more) r
    unfolding connect open_stream
    connected more r e = ap (continue up o.state o.effects (λ _. await_greeting more)) e

    unconnected :
        (r : Outcome Err (Unit {0}))
        → o.result ≡ r
        → round opts s.state first_round
          ≡ continue up
              (continue up o.state o.effects (λ _. await_greeting net.items) r).state
              (continue up o.state o.effects (λ _. await_greeting net.items) r).effects
              (λ _. start_heartbeat opts >>= λ _. serve opts [])
              (continue up o.state o.effects (λ _. await_greeting net.items) r).result
    unfolding main_loop
    unconnected r e =
        ap
          (λ (c : Done (Unit {0})).
            continue up c.state c.effects (λ _. start_heartbeat opts >>= λ _. serve opts [])
              c.result)
          (connected net.items r e)

    pub dialled :
        (r : Outcome Err (Unit {0}))
        → o.result ≡ r
        → IsReplay opts (leaves opts n (to_greeting n) s (record o { result = r }))
    unfolding resumes
    dialled (ok a) e = record {
      behind = here;
      up = up;
      alive = alive;
      net = net;
      items = [];
      since = o.effects;
      together = refl;
      opens = λ more. connected more (ok a) e;
    }
    dialled (err er) e =
        failed opts here first_round o.effects opened refl er (unconnected (err er) e)
          (after_error opts n er) refl
    dialled panic e = panicked opts here first_round o.effects opened refl (unconnected panic e)
