-- ===== src/Actor/Spec/Tells.antt =====
-- The loop of `run` in relay-client/src/actor.rs against the description of the whole task.
use orb_relay_messages.Common.{
  ℕ, ◌≡◌, refl, sym, ap, ap₂, subst, arith, Bool, true, false, Option, none, some, List, [], ◌∷◌,
  ◌++◌,
}
use orb_relay_messages.Common.HashMap
use orb_relay_messages.Common.Outcome.{Outcome, ok, err, panic}
use orb_relay_messages.Client.{Err, ClientOpts}
use orb_relay_messages.Actor.Defs.{State, Effect}
use orb_relay_messages.Actor.Monad.{Up, Done, continue, ◌>>◌, prefix}
use orb_relay_messages.Actor.Session.{Input, start_heartbeat, serve, main_loop}
use orb_relay_messages.Actor.Run.{
  Ending, Session, Report, Next, after_error, go_on, conclude, round, run_loop, initial,
}
use orb_relay_messages.Actor.Spec.{Waiters, Trace, expected}
use orb_relay_messages.Actor.Spec.Shows.{Shows}
use orb_relay_messages.Actor.Spec.Refines.{Follows, serve-Follows}
use orb_relay_messages.Actor.Spec.Opens.{connect-plays}
use orb_relay_messages.Actor.Spec.Whole.{
  opened, first_beat, behind_opening, connection, Story, end_by, pause, counted, behind_error,
  behind_connection, nobody, story,
}

-- The loop came to what the description says.
pub record Tells (r : Report) (t : Story) : Type 0 where
  pub ending : r.ending ≡ t.ending
  pub waiters : Shows r.state t.waiters
  pub effects : r.effects ≡ t.effects
  pub attempts : r.attempts ≡ t.attempts

pub initial-Shows : Shows initial nobody
unfolding HashMap.get
initial-Shows = record { ack_at = λ k. refl; reply_at = λ k. refl; beats = refl }

module _ (opts : ClientOpts) where
  prefix-Follows :
      (es : List Effect) (d : Done (Unit {0})) (t : Trace)
      → Follows d t
      → Follows (prefix es d) (record t { effects = es ++ t.effects })
  prefix-Follows es d t (h, (e, q)) = (h, (ap (λ fs. es ++ fs) e, q))

  started :
      (up : Up) (b : Bool) (s : State)
      → start_heartbeat opts up (record s { heartbeat_started = b }) ≡ record {
        state = record s { heartbeat_started = true };
        effects = first_beat opts b;
        result = ok tt;
      }
  unfolding start_heartbeat
  started up true s = refl
  started up false s = refl

  -- The heartbeat starts once, and the loop goes on.
  beating-Follows :
      (is : List Input) (up : Up) (s : State) (w : Waiters)
      → Shows s w
      → let t = expected opts is (record w { beating = true }) in
        Follows
          ((start_heartbeat opts >> serve opts is) up s)
          (record t { effects = first_beat opts w.beating ++ t.effects })
  beating-Follows is up s w h =
      let s' = record s { heartbeat_started = true } in
      let w' = record w { beating = true } in
      let t = expected opts is w' in
      subst
        (λ (d : Done (Unit {0})).
          Follows (continue up d.state d.effects (λ _. serve opts is) d.result)
            (record t { effects = first_beat opts w.beating ++ t.effects }))
        (sym (started up s.heartbeat_started s))
        (subst
          (λ b.
            Follows (prefix (first_beat opts s.heartbeat_started) (serve opts is up s'))
              (record t { effects = first_beat opts b ++ t.effects }))
          h.beats
          (prefix-Follows _ _ t (
            serve-Follows opts is up s' w'
              (record { ack_at = h.ack_at; reply_at = h.reply_at; beats = refl }))))

  connection-Follows :
      (x : Session) (s : State) (w : Waiters)
      → Shows s w
      → Follows (round opts s x) (connection opts x w)
  unfolding main_loop connection
  connection-Follows x s w h =
      let o = opened opts x.up x.answers in
      let k = start_heartbeat opts >> serve opts x.inputs in
      subst
        (λ (d : Done (Unit {0})).
          Follows (continue x.up d.state d.effects (λ _. k) d.result)
            (behind_opening opts x.inputs w o o.comes_out))
        (sym (connect-plays x.up s opts x.answers)) (go o.comes_out)
    where
      go :
          (r : Outcome Err (Unit {0}))
          → let o = opened opts x.up x.answers in
            Follows
              (continue x.up s o.does (λ _. start_heartbeat opts >> serve opts x.inputs) r)
              (behind_opening opts x.inputs w o r)
      go (ok a) = prefix-Follows _ _ _ (beating-Follows x.inputs x.up s w h)
      go (err e) = (h, (refl, refl))
      go panic = (h, (refl, refl))

  next_of : ℕ → Err → Option Ending → Next
  next_of n e (some end) = Next.finish end
  next_of n e none = Next.again (pause opts e) (counted n e)

  after_error-next : (n : ℕ) (e : Err) → after_error opts n e ≡ next_of n e (end_by opts n e)
  unfolding after_error next_of
  after_error-next n Err.stop_request = refl
  after_error-next n Err.reconnect_request = refl
  after_error-next n _ = ground arith

  module _ (d : Done (Unit {0})) (t : Trace) (n : ℕ) (rest : ℕ → Report) (others : ℕ → Story)
      (h : Shows d.state t.waiters) (q : d.effects ≡ t.effects)
      (rec : (m : ℕ) → Tells (rest m) (others m)) where
    go_on-Tells :
        (e : Err) (o : Option Ending)
        → Tells (go_on d n (next_of n e o) rest) (behind_error opts n t e o others)
    unfolding go_on next_of
    go_on-Tells e (some end) = record { ending = refl; waiters = h; effects = q; attempts = refl }
    go_on-Tells e none =
        let k = rec (counted n e) in
        record {
          ending = k.ending;
          waiters = k.waiters;
          effects = ap₂ (λ es fs. (es ++ pause opts e) ++ fs) q k.effects;
          attempts = k.attempts;
        }

    conclude-Tells :
        (r : Outcome Err (Unit {0}))
        → Tells (conclude opts d n r rest) (behind_connection opts n t r others)
    unfolding conclude
    conclude-Tells (ok a) = record { ending = refl; waiters = h; effects = q; attempts = refl }
    conclude-Tells panic = record { ending = refl; waiters = h; effects = q; attempts = refl }
    conclude-Tells (err e) =
        subst (λ x. Tells (go_on d n x rest) (behind_error opts n t e (end_by opts n e) others))
          (sym (after_error-next n e)) (go_on-Tells e (end_by opts n e))

  -- The loop of `run` over any rounds of any number of connections, whatever tonic, tokio and the
  -- server answer: from tables that show some waiters it comes to the ending, the waiters, the
  -- effects in their order and the count of attempts that the description of the whole task says.
  pub run_loop-Tells :
      (n : ℕ) (s : State) (w : Waiters) (xs : List Session)
      → Shows s w
      → Tells (run_loop opts n s xs) (story opts n w xs)
  unfolding run_loop story
  run_loop-Tells n s w [] h = record { ending = refl; waiters = h; effects = refl; attempts = refl }
  run_loop-Tells n s w (x ∷ xs) h =
      let d = round opts s x in
      let t = connection opts x w in
      let (h', (e, q)) = connection-Follows x s w h in
      subst
        (λ r.
          Tells (conclude opts d n r (λ m. run_loop opts m d.state xs))
            (behind_connection opts n t t.result (λ m. story opts m t.waiters xs)))
        (sym q)
        (conclude-Tells d t n _ (λ m. story opts m t.waiters xs) h' e
          (λ m. run_loop-Tells m d.state t.waiters xs h') t.result)
