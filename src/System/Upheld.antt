-- ===== src/System/Upheld.antt =====
-- What a client at work owes, and never loses: for what the state stores there is a message under
-- way to the actor, however its steps are ordered.
use orb_relay_messages.Common.{ℕ, ◌+◌, ◌-◌, ◌≤◌, ◌≡◌, ap, none, some, List, [], ◌∷◌, arith}
use orb_relay_messages.Common.Outcome.{Outcome, ok, err, panic}
use orb_relay_messages.Relay.{ResponseMsg}
use orb_relay_messages.Client.{Err, ClientOpts}
use orb_relay_messages.Actor.Defs.{State, Msg, Effect}
use orb_relay_messages.Actor.Monad.{Up, Act, raise}
use orb_relay_messages.Actor.Handler.{handle_msg}
use orb_relay_messages.Actor.Session.{
  StreamItem, Answers, Received, start_heartbeat, receive, open_stream, timed_out,
}
use orb_relay_messages.Actor.Keeps.{Keeps, open_stream-Keeps}
use orb_relay_messages.Actor.Run.{Next, after_error, initial}
use orb_relay_messages.System.Keeps.{greets-Keeps}
use orb_relay_messages.System.{
  IsAlive, System, armed, handed, happens, resumes, moves_on, Phase, acts, greets, greeted,
  to_greeting, to_serving, Step, Reach,
}
use orb_relay_messages.System.Measured.{charges, charges-append}

abbrev pub AnyEffect : Effect → Type 0
AnyEffect e = Unit {0}

module _ (charge : Msg → ℕ) (store : State → ℕ) (opts : ClientOpts) where
  -- The messages that effects send the actor.
  abbrev pub raised : List Effect → ℕ
  raised es = charges charge (armed es) + charges charge (handed es)

  abbrev pub AtMost : ℕ → State → Type 0
  AtMost n s = store s ≤ n

  -- What a message does to the store it makes up for by the messages that it sends.
  abbrev pub MakesUp : Msg → Up → State → Type 0
  MakesUp m up s =
      let d = handle_msg opts m up s in store d.state ≤ raised d.effects + (store s - charge m)

  pub record IsUpheld : Type 0 where
    pub each : (m : Msg) (up : Up) (s : State) → IsAlive up → MakesUp m up s
    pub beat : (n : ℕ) → Keeps (AtMost n) AnyEffect (start_heartbeat opts)
    pub response : (r : ResponseMsg) → charge (Msg.relay_response r) ≡ 0
    pub start : store initial ≡ 0

  abbrev pub IsOwed : System → Type 0
  IsOwed s = store s.state ≤ charges charge s.timers + charges charge s.channel

  -- Code that lowers the store at most, at a message that is not charged.
  pub quiet-MakesUp :
      (m : Msg) (up : Up) (s : State)
      → charge m ≡ 0
      → ((n : ℕ) → Keeps (AtMost n) AnyEffect (handle_msg opts m))
      → MakesUp m up s
  quiet-MakesUp m up s z k = omega (arith, z, ((k (store s)).at up s (omega arith)).0)

  module _ (up_held : IsUpheld) where
    happens-IsOwed :
        (es : List Effect) (s : System)
        → store s.state ≤ raised es + (charges charge s.timers + charges charge s.channel)
        → IsOwed (happens es s)
    happens-IsOwed es s h = omega (
      arith,
      charges-append charge s.timers (armed es),
      charges-append charge s.channel (handed es),
    )

    resumes-IsOwed :
        {A : Type 0} (n : ℕ) (to : A → Phase) (r : Outcome Err A) (s : System)
        → IsOwed s
        → IsOwed (resumes opts n to r s)
    unfolding resumes
    resumes-IsOwed n to (ok a) s h = h
    resumes-IsOwed n to panic s h = h
    resumes-IsOwed n to (err e) s h = go (after_error opts n e)
      where
        go : (x : Next) → IsOwed (moves_on x s)
        go (Next.finish e') = h
        go (Next.again es m) = happens-IsOwed es s (omega arith)

    acts-IsOwed :
        {A : Type 0} (n : ℕ) (to : A → Phase) (f : Act A) (up : Up) (s : System)
        → let d = f up s.state in
          store d.state ≤ raised d.effects + (charges charge s.timers + charges charge s.channel)
          → IsOwed (acts opts n to f up s)
    acts-IsOwed n to f up s h =
        let d = f up s.state in
        resumes-IsOwed n to d.result _ (happens-IsOwed d.effects (record s { state = d.state }) h)

    item-le :
        (i : StreamItem) (up : Up) (s : State)
        → IsAlive up
        → let d = receive opts (Received.from_stream i) up s in
          store d.state ≤ raised d.effects + store s
    unfolding receive
    item-le (StreamItem.message (some r)) up s l =
        omega (arith, up_held.each (Msg.relay_response r) up s l, up_held.response r)
    item-le (StreamItem.message none) up s l = omega arith
    item-le (StreamItem.status t) up s l = omega arith
    item-le StreamItem.ended up s l = omega arith

    opened-Keeps : (net : Answers) (n : ℕ) → Keeps (AtMost n) AnyEffect (open_stream opts net)
    opened-Keeps net n = open_stream-Keeps opts (λ d. tt) (λ h. tt) (λ a. tt) (λ r. tt) net

    greeted-Keeps : (i : StreamItem) (n : ℕ) → Keeps (AtMost n) AnyEffect (greets opts i)
    greeted-Keeps i n = greets-Keeps opts (λ d. tt) (λ h. tt) (λ a. tt) (λ r. tt) (up_held.beat n) i

    Step-IsOwed : {s t : System} → Step opts s t → IsOwed s → IsOwed t
    Step-IsOwed {s} (Step.call c can) h = h
    Step-IsOwed {s} (Step.put before after m ms e r) h =
        omega (arith, charges-append charge s.channel (m ∷ []))
    Step-IsOwed {s} (Step.fire before after m e r) h = omega (
      arith,
      ap (charges charge) e,
      charges-append charge before (m ∷ after),
      charges-append charge before after,
      charges-append charge s.channel (m ∷ []),
    )
    Step-IsOwed {s} (Step.take m ms n up e p l) h =
        acts-IsOwed n (to_serving n) (handle_msg opts m) up (record s { channel = ms })
          (omega (arith, up_held.each m up s.state l, ap (charges charge) e))
    Step-IsOwed {s} (Step.item i n up b p l) h =
        acts-IsOwed n (to_serving n) (receive opts (Received.from_stream i)) up s
          (omega (arith, item-le i up s.state l))
    Step-IsOwed {s} (Step.dial net n up p l) h =
        acts-IsOwed n (to_greeting n) (open_stream opts net) up s
          (omega (arith, ((opened-Keeps net (store s.state)).at up s.state (omega arith)).0))
    Step-IsOwed {s} (Step.greet i n up p l) h =
        acts-IsOwed n (greeted n) (greets opts i) up s
          (omega (arith, ((greeted-Keeps i (store s.state)).at up s.state (omega arith)).0))
    Step-IsOwed {s} (Step.time_out n up p) h =
        acts-IsOwed n (to_greeting {A = Unit {0}} n) (raise timed_out) up s (omega arith)

    pub Reach-IsOwed : {s : System} → Reach opts s → IsOwed s
    Reach-IsOwed Reach.start = omega (arith, up_held.start)
    Reach-IsOwed (Reach.next_step r st) = Step-IsOwed st (Reach-IsOwed r)
