-- ===== src/System/Priority/Stops.antt =====
-- A request to stop on the channel of a serving actor.
use orb_relay_messages.Common.{
  ℕ, ◌≡◌, refl, sym, ap, subst, ◌∙◌, append-nil, append_assoc, inl, inr, List, [], ◌∷◌, ◌++◌,
}
use orb_relay_messages.Client.{ClientOpts}
use orb_relay_messages.Actor.Defs.{Msg}
use orb_relay_messages.Actor.Monad.{Up}
use orb_relay_messages.Actor.Session.{serve}
use orb_relay_messages.System.{Phase, System, Step, IsRunning}
use orb_relay_messages.System.Priority.{Steps, Heeds, StopComes}
use orb_relay_messages.System.Priority.Taken.{takes}

module _ (opts : ClientOpts) (up : Up) where
  queued :
      (n : ℕ) (s : System) (ahead : List Msg) (t : System) (h : Heeds opts up n s ahead t) (m : Msg)
      → t.channel ++ m ∷ [] ≡ h.todo ++ Msg.stop ∷ (h.behind ++ m ∷ [])
  queued n s ahead t h m =
      ap (λ c. c ++ m ∷ []) h.channel ∙ append_assoc h.todo (Msg.stop ∷ h.behind) (m ∷ [])

  Step-StopComes :
      (n : ℕ) (s : System) (ahead : List Msg) (t v : System)
      → Steps opts s t
      → Step opts t v
      → StopComes opts up n s ahead t
      → StopComes opts up n s ahead v
  Step-StopComes n s ahead t v before st (inr (inr c)) = inr (
      inr (record {
        last = c.last;
        reached = c.reached;
        heeds = c.heeds;
        taken = c.taken;
        others = c.others;
        is_ahead = c.is_ahead;
        given = c.given;
        given_alive = c.given_alive;
        fails = c.fails;
        cut = c.cut;
        step = c.step;
        goes_on = Steps.and_then c.goes_on st;
      }))
  Step-StopComes n s ahead t v before (Step.call c can) (inl h) = inl (record {
    handled = h.handled;
    todo = h.todo;
    behind = h.behind;
    since = h.since;
    split = h.split;
    channel = h.channel;
    phase = h.phase;
    goes = h.goes;
    together = h.together;
    alive = h.alive;
  })
  Step-StopComes n s ahead t v so_far (Step.put before after m ms e r) (inl h) = inl (record {
    handled = h.handled;
    todo = h.todo;
    behind = h.behind ++ m ∷ [];
    since = h.since;
    split = h.split;
    channel = queued n s ahead t h m;
    phase = h.phase;
    goes = h.goes;
    together = h.together;
    alive = h.alive;
  })
  Step-StopComes n s ahead t v so_far (Step.fire before after m e r) (inl h) = inl (record {
    handled = h.handled;
    todo = h.todo;
    behind = h.behind ++ m ∷ [];
    since = h.since;
    split = h.split;
    channel = queued n s ahead t h m;
    phase = h.phase;
    goes = h.goes;
    together = h.together;
    alive = h.alive;
  })
  Step-StopComes n s ahead t v before (Step.take m ms n' u e p l) (inl h) =
      takes opts up n s ahead t h before n' u m ms p l e
  Step-StopComes n s ahead t v before (Step.item i n' u b p l) (inl h) =
      absurd (never h.todo (sym b ∙ h.channel))
    where
      never : (todo : List Msg) → ¬ ([] ≡ todo ++ Msg.stop ∷ h.behind)
      never [] e = cc
      never (x ∷ todo) e = cc
  Step-StopComes n s ahead t v before (Step.dial net n' u p l) (inl h) = absurd (cc)
  Step-StopComes n s ahead t v before (Step.greet i n' u p l) (inl h) = absurd (cc)
  Step-StopComes n s ahead t v before (Step.time_out n' u p) (inl h) = absurd (cc)
  Step-StopComes n s ahead t v before (Step.call c can) (inr (inl h)) = inr (
      inl (record {
        handled = h.handled;
        since = h.since;
        all = h.all;
        phase = h.phase;
        goes = h.goes;
        together = h.together;
        alive = h.alive;
      }))
  Step-StopComes n s ahead t v so_far (Step.put before after m ms e r) (inr (inl h)) =
      absurd (subst IsRunning h.phase r)
  Step-StopComes n s ahead t v so_far (Step.fire before after m e r) (inr (inl h)) =
      absurd (subst IsRunning h.phase r)
  Step-StopComes n s ahead t v before (Step.take m ms n' u e p l) (inr (inl h)) = absurd (cc)
  Step-StopComes n s ahead t v before (Step.item i n' u b p l) (inr (inl h)) = absurd (cc)
  Step-StopComes n s ahead t v before (Step.dial net n' u p l) (inr (inl h)) = absurd (cc)
  Step-StopComes n s ahead t v before (Step.greet i n' u p l) (inr (inl h)) = absurd (cc)
  Step-StopComes n s ahead t v before (Step.time_out n' u p) (inr (inl h)) = absurd (cc)

  -- A request to stop is heeded before anything that the stream gives: with a `Stop` on the channel
  -- of a serving actor, over any steps of a client at work the actor first handles nothing but the
  -- messages ahead of it, one after the other, while more may be called and queue up behind. It still
  -- serves, with the `Stop` behind those that are left, or it has handled them all and has stopped,
  -- and then does nothing more, each time with the state and the effects of handling them; or, among
  -- these very steps, it took one that was ahead and failed to handle it, which ended the connection.
  pub stop_comes :
      (n : ℕ) (s : System) (ahead behind : List Msg) (t : System)
      → s.phase ≡ Phase.serving n
      → s.channel ≡ ahead ++ Msg.stop ∷ behind
      → Steps opts s t
      → StopComes opts up n s ahead t
  unfolding serve
  stop_comes n s ahead behind t p c Steps.none_yet = inl (record {
    handled = [];
    todo = ahead;
    behind = behind;
    since = [];
    split = refl;
    channel = c;
    phase = p;
    goes = refl;
    together = sym (append-nil s.effects);
    alive = tt;
  })
  stop_comes n s ahead behind t p c (Steps.and_then {t = u} before st) =
      Step-StopComes n s ahead u t before st (stop_comes n s ahead behind u p c before)
