-- ===== src/System/Priority/Taken.antt =====
-- The next message of the channel, taken by the actor.
use orb_relay_messages.Common.{
  All-append, ℕ, ◌≡◌, refl, sym, ap, subst, ◌∙◌, append-nil, append_assoc, inl, inr, List, [], ◌∷◌,
  ◌++◌,
}
use orb_relay_messages.Common.Outcome.{Outcome, ok, err, panic}
use orb_relay_messages.Client.{Err, ClientOpts}
use orb_relay_messages.Actor.Defs.{Msg}
use orb_relay_messages.Actor.Monad.{Up, Done}
use orb_relay_messages.Actor.Handler.{handle_msg}
use orb_relay_messages.Actor.Session.{Received, receive, serve}
use orb_relay_messages.Actor.Run.{after_error}
use orb_relay_messages.System.{acts, IsAlive, Phase, System, resumes, happens, handed, to_serving}
use orb_relay_messages.System.Priority.{
  inputs_of, messages_of, IsFailure, AliveAt, Steps, IsCutShort, Heeds, StopComes,
}
use orb_relay_messages.System.Priority.Served.{serve-last}

module _ (opts : ClientOpts) (up : Up) where
  more_inputs :
      (hs : List (Up × Msg)) (x : Up × Msg)
      → inputs_of (hs ++ x ∷ []) ≡ inputs_of hs ++ inputs_of (x ∷ [])
  more_inputs [] x = refl
  more_inputs ((u, m) ∷ hs) x =
      ap (λ is. record { up = u; received = Received.from_actor m } ∷ is) (more_inputs hs x)

  more_messages :
      (hs : List (Up × Msg)) (u : Up) (m : Msg) (ms : List Msg)
      → messages_of hs ++ m ∷ ms ≡ messages_of (hs ++ (u, m) ∷ []) ++ ms
  more_messages [] u m ms = refl
  more_messages ((v, x) ∷ hs) u m ms = ap (λ q. x ∷ q) (more_messages hs u m ms)

  module _ (n : ℕ) (s : System) (ahead : List Msg) (t : System) (h : Heeds opts up n s ahead t)
      (before : Steps opts s t) (n' : ℕ) (u : Up) (m : Msg) (ms : List Msg)
      (serving : t.phase ≡ Phase.serving n') (living : IsAlive u) where
    abbrev d : Done (Unit {0})
    d = handle_msg opts m u t.state

    abbrev after_taking : Outcome Err (Unit {0}) → System
    after_taking r =
        resumes opts n' (to_serving n') r
          (happens d.effects (record t { channel = ms; state = d.state }))

    served :
        (r : Outcome Err (Unit {0}))
        → d.result ≡ r
        → serve opts (inputs_of (h.handled ++ (u, m) ∷ [])) up s.state
          ≡ record { state = d.state; effects = h.since ++ d.effects; result = r }
    unfolding receive
    served r e =
        ap (λ is. serve opts is up s.state) (more_inputs h.handled (u, m))
        ∙ serve-last opts up (inputs_of h.handled)
            (record { up = u; received = Received.from_actor m }) s.state t.state h.since h.goes r e

    cut_short :
        (todo : List Msg)
        → h.todo ≡ m ∷ todo
        → ms ≡ todo ++ Msg.stop ∷ h.behind
        → (r : Outcome Err (Unit {0})) → d.result ≡ r
        → IsFailure r
        → IsCutShort opts up n s ahead (after_taking r)
    cut_short todo p q r e f = record {
      last = t;
      reached = before;
      heeds = h;
      taken = m;
      others = todo;
      is_ahead = p;
      given = u;
      given_alive = living;
      fails = subst IsFailure (sym e) f;
      cut = after_taking r;
      step =
          ap after_taking (sym e)
          ∙ ap
              (λ (k : ℕ).
                acts opts k (to_serving k) (handle_msg opts m) u (record t { channel = ms }))
              same_count
          ∙ ap (λ c. acts opts n (to_serving n) (handle_msg opts m) u (record t { channel = c })) q;
      goes_on = Steps.none_yet;
    }
      where
        same_count : n' ≡ n
        same_count = cc (serving, h.phase)

    handles :
        (todo : List Msg)
        → h.todo ≡ m ∷ todo
        → ms ≡ todo ++ Msg.stop ∷ h.behind
        → (r : Outcome Err (Unit {0})) → d.result ≡ r
        → StopComes opts up n s ahead (after_taking r)
    unfolding resumes
    handles todo p q (ok a) e = inl (record {
      handled = h.handled ++ (u, m) ∷ [];
      todo = todo;
      behind = h.behind ++ handed d.effects;
      since = h.since ++ d.effects;
      split = h.split ∙ ap (λ c. messages_of h.handled ++ c) p ∙ more_messages h.handled u m todo;
      channel =
          ap (λ c. c ++ handed d.effects) q
          ∙ append_assoc todo (Msg.stop ∷ h.behind) (handed d.effects);
      phase = sym serving ∙ h.phase;
      goes = served (ok a) e;
      together = ap (λ es. es ++ d.effects) h.together ∙ append_assoc s.effects h.since d.effects;
      alive = All-append AliveAt h.handled _ h.alive (living, tt);
    })
    handles todo p q (err x) e = inr (inr (cut_short todo p q (err x) e tt))
    handles todo p q panic e = inr (inr (cut_short todo p q panic e tt))

    stops :
        ahead ≡ messages_of h.handled
        → m ≡ Msg.stop
        → StopComes opts up n s ahead (after_taking d.result)
    unfolding resumes handle_msg after_error
    stops p q =
        subst
          (λ (x : Msg).
            let f = handle_msg opts x u t.state in
            StopComes opts up n s ahead (
              resumes opts n' (to_serving n') f.result
                (happens f.effects (record t { channel = ms; state = f.state }))))
          (sym q)
          (inr (
            inl (record {
              handled = h.handled;
              since = h.since;
              all = p;
              phase = refl;
              goes = h.goes;
              together = append-nil t.effects ∙ h.together;
              alive = h.alive;
            })))

    pub takes : t.channel ≡ m ∷ ms → StopComes opts up n s ahead (after_taking d.result)
    takes e = go h.todo refl
      where
        go : (todo : List Msg) → h.todo ≡ todo → StopComes opts up n s ahead (after_taking d.result)
        go [] p =
            let c : m ∷ ms ≡ Msg.stop ∷ h.behind =
              sym e ∙ h.channel ∙ ap (λ q. q ++ Msg.stop ∷ h.behind) p in
            stops
              (h.split
                ∙ ap (λ q. messages_of h.handled ++ q) p
                ∙ append-nil (messages_of h.handled))
              (cc)
        go (x ∷ todo) p =
            let c : m ∷ ms ≡ x ∷ (todo ++ Msg.stop ∷ h.behind) =
              sym e ∙ h.channel ∙ ap (λ q. q ++ Msg.stop ∷ h.behind) p in
            let same : x ≡ m = cc in handles todo (p ∙ ap (λ y. y ∷ todo) same) (cc) d.result refl
