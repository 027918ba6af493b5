-- ===== src/Actor/Run/Pauses.antt =====
-- The pauses of the loop of `run` in relay-client/src/actor.rs, and its count of attempts.
use orb_relay_messages.Common.{
  ℕ, ◌+◌, max, ◌≤◌, ◌<◌, ◌≡◌, refl, List, [], ◌∷◌, ◌++◌, arith, All, some, none,
}
use orb_relay_messages.Common.Bytes.{u64_mod}
use orb_relay_messages.Common.Outcome.{Outcome, ok, err, panic}
use orb_relay_messages.Amount
use orb_relay_messages.Amount.{Amount}
use orb_relay_messages.Client.{Err, ClientOpts}
use orb_relay_messages.Actor.Defs.{State, Msg, Effect}
use orb_relay_messages.Actor.Monad.{Up, Done}
use orb_relay_messages.Actor.Handler.{handle_msg}
use orb_relay_messages.Actor.Session.{Answers, Received, StreamItem, Input, connect, receive}
use orb_relay_messages.Actor.Keeps.{Keeps, raise-Keeps, pure-Keeps, connect-Keeps, main_loop-Keeps}
use orb_relay_messages.Actor.Handler.Keeps.{AnyState, handle_msg-Keeps, start_heartbeat-Keeps}
use orb_relay_messages.Actor.Run.{
  Session, Ending, Report, Next, after_error, go_on, conclude, round, run_loop,
}
use orb_relay_messages.Actor.Run.Amortized.{total, total-append}

abbrev pub is_pause : Effect → ℕ
is_pause (Effect.sleep d) = 1
is_pause _ = 0

-- How often the task slept between two connections.
abbrev pub pauses : List Effect → ℕ
pauses = total is_pause

abbrev NoPause : Effect → Type 0
NoPause e = is_pause e ≡ 0

no_pauses : (es : List Effect) → All NoPause es → pauses es ≡ 0
no_pauses [] h = refl
no_pauses (e ∷ es) h = omega (arith, h.0, no_pauses es h.1)

pub connect-pauses :
    (opts : ClientOpts) (net : Answers) (up : Up) (s : State)
    → pauses (connect opts net up s).effects ≡ 0
connect-pauses opts net up s =
    no_pauses _
      ((connect-Keeps {P = AnyState} {Q = NoPause} opts (λ d. refl) (λ h. refl) (λ a. refl)
          (λ r. refl) net).at
        up s tt).1

message-NoPause : (opts : ClientOpts) (m : Msg) → Keeps AnyState NoPause (handle_msg opts m)
message-NoPause opts m =
    handle_msg-Keeps opts (λ r. refl) (λ r. refl) (λ tx r. refl) (λ tx. refl) (λ d m. refl) m

receive-NoPause : (opts : ClientOpts) (r : Received) → Keeps AnyState NoPause (receive opts r)
unfolding receive
receive-NoPause opts (Received.from_actor m) = message-NoPause opts m
receive-NoPause opts Received.actor_closed = raise-Keeps _
receive-NoPause opts (Received.from_stream StreamItem.ended) = raise-Keeps _
receive-NoPause opts (Received.from_stream (StreamItem.status t)) = raise-Keeps _
receive-NoPause opts (Received.from_stream (StreamItem.message none)) = pure-Keeps tt
receive-NoPause opts (Received.from_stream (StreamItem.message (some r))) =
    message-NoPause opts (Msg.relay_response r)

inputs-NoPause :
    (opts : ClientOpts) (is : List Input)
    → All (λ i. Keeps AnyState NoPause (receive opts i.received)) is
inputs-NoPause opts [] = tt
inputs-NoPause opts (i ∷ is) = (receive-NoPause opts i.received, inputs-NoPause opts is)

round-pauses : (opts : ClientOpts) (s : State) (x : Session) → pauses (round opts s x).effects ≡ 0
round-pauses opts s x =
    no_pauses _
      ((main_loop-Keeps {P = AnyState} {Q = NoPause} opts (λ d. refl) (λ h. refl) (λ a. refl)
          (λ r. refl) x.answers x.inputs (start_heartbeat-Keeps opts (λ s p. p) refl)
          (inputs-NoPause opts x.inputs)).at
        x.up s tt).1

-- A failure only comes once the count has reached the limit.
abbrev pub Exhausts : ℕ → Ending → ℕ → Type 0
Exhausts m (Ending.failed e) k = m ≤ k
Exhausts m _ k = Unit {0}

module _ (opts : ClientOpts) (m : ℕ) (bound : opts.max_connection_attempts ≡ Amount.val m)
    (small : m < u64_mod) where
  pub record IsPaced (n : ℕ) (r : Report) : Type 0 where
    pub counted : r.attempts ≡ n + pauses r.effects
    pub within : r.attempts ≤ max n m
    pub exhausts : Exhausts m r.ending r.attempts

  abbrev Paces : ℕ → Next → Type 0
  Paces n (Next.finish e) = Exhausts m e n
  Paces n (Next.again es k) = (k ≡ n + pauses es) × (k ≤ max n m)

  after_error-Paces : (n : ℕ) (e : Err) → Paces n (after_error opts n e)
  unfolding after_error Amount.le
  after_error-Paces n Err.stop_request = tt
  after_error-Paces n Err.reconnect_request = (omega arith, omega arith)
  after_error-Paces n _ = ground (arith, bound, small)

  module _ (d : Done (Unit {0})) (n : ℕ) (rest : ℕ → Report) (quiet : pauses d.effects ≡ 0)
      (h : (k : ℕ) → IsPaced k (rest k)) where
    go_on-IsPaced : (x : Next) → Paces n x → IsPaced n (go_on d n x rest)
    unfolding go_on
    go_on-IsPaced (Next.finish e) c = record {
      counted = omega (arith, quiet);
      within = omega arith;
      exhausts = c;
    }
    go_on-IsPaced (Next.again es k) (c, w) =
        let q = h k in
        record {
          counted = omega (
            arith,
            quiet,
            c,
            q.counted,
            total-append is_pause d.effects es,
            total-append is_pause (d.effects ++ es) (rest k).effects,
          );
          within = omega (arith, w, q.within);
          exhausts = q.exhausts;
        }

    conclude-IsPaced : (r : Outcome Err (Unit {0})) → IsPaced n (conclude opts d n r rest)
    unfolding conclude
    conclude-IsPaced (ok a) = record {
      counted = omega (arith, quiet);
      within = omega arith;
      exhausts = tt;
    }
    conclude-IsPaced panic = record {
      counted = omega (arith, quiet);
      within = omega arith;
      exhausts = tt;
    }
    conclude-IsPaced (err e) = go_on-IsPaced (after_error opts n e) (after_error-Paces n e)

  -- Over any rounds under a finite limit, the count of attempts grows by one with each pause and
  -- with nothing else, stays within the limit, and has reached it where the loop fails.
  pub run_loop-IsPaced : (n : ℕ) (s : State) (xs : List Session) → IsPaced n (run_loop opts n s xs)
  unfolding run_loop
  run_loop-IsPaced n s [] = record { counted = omega arith; within = omega arith; exhausts = tt }
  run_loop-IsPaced n s (x ∷ xs) =
      let d = round opts s x in
      conclude-IsPaced d n (λ k. run_loop opts k d.state xs) (round-pauses opts s x)
        (λ k. run_loop-IsPaced k d.state xs) d.result
