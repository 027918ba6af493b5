-- ===== src/System/Replays/Greetings.antt =====
-- The items ahead of the greeting of a connection, as more of a round of `run_loop`.
use orb_relay_messages.Common.{
  if◌then◌else◌, arith, ℕ, ◌≡◌, refl, sym, ap, subst, ◌∙◌, Bool, true, false, none, some, List, [],
  ◌∷◌, ◌++◌, append-nil, append_assoc,
}
use orb_relay_messages.Common.Outcome.{Outcome, ok, err, panic}
use orb_relay_messages.Relay.{ResponseMsg}
use orb_relay_messages.Client.{Err, ClientOpts}
use orb_relay_messages.Actor.Defs.{State}
use orb_relay_messages.Actor.Monad.{pure, Up, Done, prefix, continue, ◌>>=◌, raise}
use orb_relay_messages.Actor.Session.{
  StreamItem, Input, greet, greet_item, await_greeting, connect, serve, start_heartbeat, main_loop,
  timed_out,
}
use orb_relay_messages.Actor.Run.{Session, after_error}
use orb_relay_messages.System.{
  IsAlive, System, happens, resumes, go_on_greeted, greeted, to_greeting,
}
use orb_relay_messages.System.Replays.{
  Greets, Serves, IsReplay, panicked, failed, leaves, more_effects, prefix-prefix,
}

module _ (opts : ClientOpts) where
  same_heartbeat :
      (up up' : Up) (t : State) → start_heartbeat opts up t ≡ start_heartbeat opts up' t
  unfolding start_heartbeat
  same_heartbeat up up' t = ground arith

  heartbeat-ok : (up : Up) (t : State) → (start_heartbeat opts up t).result ≡ ok tt
  unfolding start_heartbeat
  heartbeat-ok up t = ground arith

  same_greeting :
      (i : StreamItem) (up up' : Up) (t : State)
      → IsAlive up
      → IsAlive up'
      → greet_item i up t ≡ greet_item i up' t
  unfolding greet_item greet
  same_greeting (StreamItem.message none) up up' t l l' = refl
  same_greeting (StreamItem.status x) up up' t l l' = refl
  same_greeting StreamItem.ended up up' t l l' = refl
  same_greeting (StreamItem.message (some (ResponseMsg.ack a))) up up' t l l' =
      rw (l.actor, l'.actor) refl
  same_greeting (StreamItem.message (some (ResponseMsg.payload p))) up up' t l l' =
      rw (l.actor, l'.actor) refl
  same_greeting (StreamItem.message (some (ResponseMsg.connect_response c))) up up' t l l' =
      ground arith

  module _ (n : ℕ) (s : System) (v : Greets opts n s.state s.effects) where
    abbrev stream_round : List StreamItem → Session
    stream_round items = record { up = v.up; answers = record v.net { items = items }; inputs = [] }

    -- The rest of `main_loop` behind what `connect` did.
    abbrev behind_connect : List Input → Done (Unit {0}) → Done (Unit {0})
    behind_connect is c =
        continue v.up c.state c.effects (λ _. start_heartbeat opts >>= λ _. serve opts is) c.result

    looped :
        (items : List StreamItem) (is : List Input) (c : Done (Unit {0}))
        → connect opts (record v.net { items = items }) v.up v.behind.state ≡ c
        → main_loop opts (record v.net { items = items }) is v.up v.behind.state
          ≡ behind_connect is c
    unfolding main_loop
    looped items is c e = ap (behind_connect is) e

    pub timed :
        IsReplay opts
          (leaves opts n (to_greeting {A = Unit {0}} n) s (raise timed_out v.up s.state))
    unfolding resumes await_greeting
    timed =
        failed opts v.behind (stream_round (v.items ++ [])) (v.since ++ []) (happens [] s)
          (more_effects opts v.behind.before v.since [] v.together) timed_out
          (looped (v.items ++ []) [] _ (v.opens [])) (after_error opts n timed_out) refl

    module _ (i : StreamItem) (up' : Up) (alive' : IsAlive up') where
      abbrev g : Done Bool
      g = greet_item i up' s.state

      abbrev and_awaits : List StreamItem → Outcome Err Bool → Done (Unit {0})
      and_awaits more r =
          prefix v.since
            (continue v.up g.state g.effects (λ b. if b then await_greeting more else pure tt) r)

      seen :
          (more : List StreamItem) (r : Outcome Err Bool)
          → g.result ≡ r
          → connect opts (record v.net { items = v.items ++ i ∷ more }) v.up v.behind.state
            ≡ and_awaits more r
      unfolding await_greeting
      seen more r e =
          v.opens (i ∷ more)
          ∙ ap
              (λ (d : Done Bool). prefix v.since (
                continue v.up d.state d.effects (λ b. if b then await_greeting more else pure tt)
                  d.result))
              (same_greeting i v.up up' s.state v.alive alive')
          ∙ ap (and_awaits more) e

      greeted_more : g.result ≡ ok true → Greets opts n g.state (s.effects ++ g.effects)
      greeted_more e = record {
        behind = v.behind;
        up = v.up;
        alive = v.alive;
        net = v.net;
        items = v.items ++ i ∷ [];
        since = v.since ++ g.effects;
        together = more_effects opts v.behind.before v.since g.effects v.together;
        opens = λ more.
            ap (λ is. connect opts (record v.net { items = is }) v.up v.behind.state)
              (append_assoc v.items (i ∷ []) more)
            ∙ seen more (ok true) e
            ∙ prefix-prefix opts v.since g.effects (await_greeting more v.up g.state);
      }

      abbrev h : Done (Unit {0})
      h = start_heartbeat opts v.up g.state

      greeted_last :
          g.result ≡ ok false → Serves opts n h.state ((s.effects ++ g.effects) ++ h.effects)
      greeted_last e = record {
        behind = v.behind;
        up = v.up;
        net = record v.net { items = v.items ++ i ∷ [] };
        inputs = [];
        since = (v.since ++ (g.effects ++ [])) ++ h.effects;
        together = more_effects opts v.behind.before (v.since ++ (g.effects ++ [])) h.effects (
            more_effects opts v.behind.before v.since g.effects v.together
            ∙ ap (λ q. v.behind.before ++ (v.since ++ q)) (sym (append-nil g.effects)));
        serves = λ more.
            looped (v.items ++ i ∷ []) more _ (seen [] (ok false) e)
            ∙ ap
                (λ r.
                  prefix (v.since ++ (g.effects ++ []))
                    (continue v.up h.state h.effects (λ _. serve opts more) r))
                (heartbeat-ok v.up g.state)
            ∙ prefix-prefix opts (v.since ++ (g.effects ++ [])) h.effects
                (serve opts more v.up h.state);
      }

      abbrev greeted_by : Outcome Err Bool → System
      greeted_by r =
          leaves opts n (greeted n) s (continue up' g.state g.effects (go_on_greeted opts) r)

      abbrev beaten_by : Done (Unit {0}) → Outcome Err (Unit {0}) → System
      beaten_by k r =
          leaves opts n (greeted n) s
            (prefix g.effects (continue up' k.state k.effects (λ _. pure false) r))

      fails : (er : Err) → g.result ≡ err er → IsReplay opts (greeted_by (err er))
      unfolding resumes
      fails er e =
          failed opts v.behind (stream_round (v.items ++ i ∷ [])) (v.since ++ g.effects)
            (happens g.effects (record s { state = g.state }))
            (more_effects opts v.behind.before v.since g.effects v.together) er
            (looped (v.items ++ i ∷ []) [] _ (seen [] (err er) e)) (after_error opts n er) refl

      pub greets-IsReplay : (r : Outcome Err Bool) → g.result ≡ r → IsReplay opts (greeted_by r)
      unfolding resumes
      greets-IsReplay (ok true) e =
          subst (λ q. Greets opts n g.state (s.effects ++ q)) (sym (append-nil g.effects))
            (greeted_more e)
      greets-IsReplay (ok false) e =
          subst (λ k. IsReplay opts (beaten_by k k.result)) (same_heartbeat v.up up' g.state)
            (subst (λ r. IsReplay opts (beaten_by h r)) (sym (heartbeat-ok v.up g.state))
              (subst (Serves opts n h.state)
                (append_assoc s.effects g.effects h.effects
                  ∙ ap (λ q. s.effects ++ (g.effects ++ q)) (sym (append-nil h.effects)))
                (greeted_last e)))
      greets-IsReplay (err er) e = fails er e
      greets-IsReplay panic e =
          panicked opts v.behind (stream_round (v.items ++ i ∷ [])) (v.since ++ g.effects)
            (happens g.effects (record s { state = g.state }))
            (more_effects opts v.behind.before v.since g.effects v.together)
            (looped (v.items ++ i ∷ []) [] _ (seen [] panic e))
