-- ===== src/System/Sent.antt =====
-- What becomes of the requests that the calls of a client at work put on the channel of its actor.
use orb_relay_messages.Common.{◌≡◌, refl, ◌++◌, ℕ, ◌+◌, ◌≤◌, ap, List, [], ◌∷◌, arith}
use orb_relay_messages.Common.Outcome.{Outcome, ok, err, panic}
use orb_relay_messages.Relay.{RelayConnectRequest}
use orb_relay_messages.Client.{Err, ClientOpts}
use orb_relay_messages.Actor.Defs.{State, Msg, Effect}
use orb_relay_messages.Actor.Monad.{Up, Act}
use orb_relay_messages.Actor.Handler.{handle_msg}
use orb_relay_messages.Actor.Run.{Next, after_error}
use orb_relay_messages.Actor.Run.Amortized.{total, total-append}
use orb_relay_messages.System.{
  IsRunning, Call, System, Phase, Step, IsAlive, issued, happens, handed, moves_on, resumes, acts,
  to_serving,
}
use orb_relay_messages.System.Measured.{charges, charges_all, charges-append, charges_all-append}
use orb_relay_messages.System.Priority.{Steps}

abbrev pub called : System → Call → System
called s c = record s {
  client = (issued s.client s.next c).1;
  next = s.next + 1;
  calls = s.calls ++ (issued s.client s.next c).0 ∷ [];
}

-- The requests are counted by any weight.
module _ (w : RelayConnectRequest → ℕ) where
  abbrev pub to_send : Msg → ℕ
  to_send (Msg.send r) = w r
  to_send _ = 0

  abbrev pub of_effect : Effect → ℕ
  of_effect (Effect.to_tonic r) = w r
  of_effect _ = 0

  -- What calls have still to put on the channel, what is on the channel, and what was put on the
  -- queue to the server.
  abbrev held : System → ℕ
  held s = charges_all to_send s.calls + (charges to_send s.channel + total of_effect s.effects)

  -- Of a task that has ended nothing takes a request any more.
  abbrev pub waiting : Phase → System → ℕ
  waiting (Phase.ended e) s = 0
  waiting _ s = charges_all to_send s.calls + charges to_send s.channel

  -- What is still on its way through a client, and what was put on its queue to the server.
  abbrev pub in_hand : System → ℕ
  in_hand s = waiting s.phase s + total of_effect s.effects

  waiting-le :
      (p : Phase) (s : System)
      → waiting p s ≤ charges_all to_send s.calls + charges to_send s.channel
  waiting-le (Phase.connecting n) s = omega arith
  waiting-le (Phase.greeting n) s = omega arith
  waiting-le (Phase.serving n) s = omega arith
  waiting-le (Phase.ended e) s = omega arith

  in_hand-held : (s : System) → in_hand s ≤ held s
  in_hand-held s = omega (arith, waiting-le s.phase s)

  waiting_running :
      (p : Phase) (s : System)
      → IsRunning p
      → waiting p s ≡ charges_all to_send s.calls + charges to_send s.channel
  waiting_running (Phase.connecting n) s r = refl
  waiting_running (Phase.greeting n) s r = refl
  waiting_running (Phase.serving n) s r = refl
  waiting_running (Phase.ended e) s r = elim r [ ]

  happens-held : (es : List Effect) (s : System) → held s + total of_effect es ≤ held (happens es s)
  happens-held es s =
      omega
        (arith, charges-append to_send s.channel (handed es), total-append of_effect s.effects es)

  module _ (opts : ClientOpts) where
    moves_on-held : (x : Next) (s : System) → held s ≤ held (moves_on x s)
    moves_on-held (Next.finish e) s = omega arith
    moves_on-held (Next.again es n) s = omega (arith, happens-held es s)

    resumes-held :
        {A : Type 0} (n : ℕ) (to : A → Phase) (r : Outcome Err A) (s : System)
        → held s ≤ held (resumes opts n to r s)
    unfolding resumes
    resumes-held n to (ok a) s = omega arith
    resumes-held n to (err e) s = moves_on-held (after_error opts n e) s
    resumes-held n to panic s = omega arith

    acts-held :
        {A : Type 0} (n : ℕ) (to : A → Phase) (f : Act A) (up : Up) (s : System)
        → held s + total of_effect (f up s.state).effects ≤ held (acts opts n to f up s)
    acts-held n to f up s =
        let d = f up s.state in
        let t = record s { state = d.state } in
        omega (arith, happens-held d.effects t, resumes-held n to d.result (happens d.effects t))

    -- With the channel to the server there, a request is sent as soon as it is taken.
    taken-sent :
        (m : Msg) (up : Up) (s : State)
        → IsAlive up
        → to_send m ≤ total of_effect (handle_msg opts m up s).effects
    unfolding handle_msg
    taken-sent (Msg.send r) up s l = rw l.tonic (omega arith)
    taken-sent (Msg.relay_response r) up s l = omega arith
    taken-sent (Msg.wait_for_ack m tx k) up s l = omega arith
    taken-sent (Msg.wait_for_reply m tx k) up s l = omega arith
    taken-sent (Msg.retry_ack k a) up s l = omega arith
    taken-sent (Msg.retry_ask c k a) up s l = omega arith
    taken-sent Msg.stop up s l = omega arith
    taken-sent Msg.reconnect up s l = omega arith
    taken-sent Msg.heartbeat up s l = omega arith

    Step-held : (s t : System) → Step opts s t → held s ≤ held t
    Step-held s t (Step.call c can) =
        omega (arith, charges_all-append to_send s.calls ((issued s.client s.next c).0 ∷ []))
    Step-held s t (Step.put before after m ms e r) = omega (
      arith,
      ap (charges_all to_send) e,
      charges_all-append to_send before ((m ∷ ms) ∷ after),
      charges_all-append to_send before (ms ∷ after),
      charges-append to_send s.channel (m ∷ []),
    )
    Step-held s t (Step.fire before after m e r) =
        omega (arith, charges-append to_send s.channel (m ∷ []))
    Step-held s t (Step.take m ms n up e p l) = omega (
      arith,
      ap (charges to_send) e,
      taken-sent m up s.state l,
      acts-held n (to_serving n) (handle_msg opts m) up (record s { channel = ms }),
    )
    Step-held s t (Step.item i n up b p l) = omega (arith, acts-held n _ _ up s)
    Step-held s t (Step.dial net n up p l) = omega (arith, acts-held n _ _ up s)
    Step-held s t (Step.greet i n up p l) = omega (arith, acts-held n _ _ up s)
    Step-held s t (Step.time_out n up p) = omega (arith, acts-held n _ _ up s)

    Steps-held : (s t : System) → Steps opts s t → held s ≤ held t
    Steps-held s t Steps.none_yet = omega arith
    Steps-held s t (Steps.and_then {t = u} before st) =
        omega (arith, Steps-held s u before, Step-held u t st)

    before_call :
        (s t : System) (c : Call)
        → Steps opts (called s c) t
        → held s + charges to_send (issued s.client s.next c).0 ≤ held t
    before_call s t c steps = omega (
      arith,
      charges_all-append to_send s.calls ((issued s.client s.next c).0 ∷ []),
      Steps-held (called s c) t steps,
    )

    -- While its task runs, a client keeps or hands on every request: whichever requests are counted,
    -- over any steps behind a call after which the task still runs, failures and reconnects among
    -- them, those that the call issued and all that stood before it are still to be put on the
    -- channel of the actor, are on that channel, or were put on the queue to the server, from which
    -- the connections take them. What stands on the channel of a task that has ended does not count.
    pub kept_while_running :
        (s t : System) (c : Call)
        → IsRunning t.phase
        → Steps opts (called s c) t
        → in_hand s + charges to_send (issued s.client s.next c).0 ≤ in_hand t
    kept_while_running s t c r steps =
        omega (arith, before_call s t c steps, in_hand-held s, waiting_running t.phase t r)
