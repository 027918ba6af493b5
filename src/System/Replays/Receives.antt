-- ===== src/System/Replays/Receives.antt =====
-- What the actor receives in `main_loop`, as more of a round of `run_loop`.
use orb_relay_messages.Common.{ℕ, ◌≡◌, refl, ap, ◌∙◌, List, [], ◌∷◌, ◌++◌, append_assoc}
use orb_relay_messages.Common.Outcome.{Outcome, ok, err, panic}
use orb_relay_messages.Client.{Err, ClientOpts}
use orb_relay_messages.Actor.Monad.{Done, prefix, continue}
use orb_relay_messages.Actor.Session.{Input, receive, serve, main_loop}
use orb_relay_messages.Actor.Run.{Session, after_error}
use orb_relay_messages.System.{System, happens, resumes, to_serving}
use orb_relay_messages.System.Replays.{
  Serves, IsReplay, panicked, failed, leaves, more_effects, prefix-prefix,
}

module _ (opts : ClientOpts) where
  module _ (n : ℕ) (s : System) (v : Serves opts n s.state s.effects) (i : Input) where
    abbrev d : Done (Unit {0})
    d = receive opts i.received i.up s.state

    abbrev then_serves : List Input → Outcome Err (Unit {0}) → Done (Unit {0})
    then_serves more r = prefix v.since (continue v.up d.state d.effects (λ _. serve opts more) r)

    received :
        (more : List Input) (r : Outcome Err (Unit {0}))
        → d.result ≡ r
        → main_loop opts v.net (v.inputs ++ i ∷ more) v.up v.behind.state ≡ then_serves more r
    unfolding serve
    received more r e = v.serves (i ∷ more) ∙ ap (then_serves more) e

    abbrev this_round : Session
    this_round = record { up = v.up; answers = v.net; inputs = v.inputs ++ i ∷ [] }

    with_effects : s.effects ++ d.effects ≡ v.behind.before ++ (v.since ++ d.effects)
    with_effects = more_effects opts v.behind.before v.since d.effects v.together

    pub served :
        (r : Outcome Err (Unit {0}))
        → d.result ≡ r
        → IsReplay opts (leaves opts n (to_serving n) s (record d { result = r }))
    unfolding resumes
    served (ok a) e = record {
      behind = v.behind;
      up = v.up;
      net = v.net;
      inputs = v.inputs ++ i ∷ [];
      since = v.since ++ d.effects;
      together = with_effects;
      serves = λ more.
          ap (λ is. main_loop opts v.net is v.up v.behind.state)
            (append_assoc v.inputs (i ∷ []) more)
          ∙ received more (ok a) e
          ∙ prefix-prefix opts v.since d.effects (serve opts more v.up d.state);
    }
    served (err er) e =
        failed opts v.behind this_round (v.since ++ d.effects)
          (happens d.effects (record s { state = d.state })) with_effects er
          (received [] (err er) e) (after_error opts n er) refl
    served panic e =
        panicked opts v.behind this_round (v.since ++ d.effects)
          (happens d.effects (record s { state = d.state })) with_effects (received [] panic e)
