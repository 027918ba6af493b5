-- ===== src/System/Exact.antt =====
-- A count over a client at work in which nothing is lost: it is its budget at every time.
use orb_relay_messages.Common.{false, true, ℕ, ◌+◌, ◌≡◌, refl, ap, none, some, [], ◌∷◌, arith}
use orb_relay_messages.Common.Outcome.{Outcome, ok, err, panic}
use orb_relay_messages.Client.{Sender, Err, ClientOpts}
use orb_relay_messages.Actor.Defs.{State, Msg, Effect}
use orb_relay_messages.Actor.Monad.{Up, Done, Act, continue, pure, raise, ◌>>=◌}
use orb_relay_messages.Actor.Handler.{handle_msg}
use orb_relay_messages.Actor.Keeps.{Keeps, open_stream-Keeps, greet_item-Keeps}
use orb_relay_messages.Actor.Session.{
  StreamItem, Answers, Received, start_heartbeat, receive, greet_item, open_stream, timed_out,
}
use orb_relay_messages.Actor.Run.{initial}
use orb_relay_messages.Actor.Run.Amortized.{
  quiet-exact, total, total-append, carried, IsMeasure, IsFree, Stores,
}
use orb_relay_messages.Actor.Monad.{Up, Done, Act, continue, pure, raise, ◌>>=◌}
use orb_relay_messages.Api.{Client}
use orb_relay_messages.System.{
  IsAlive, Call, System, issued, happens, Phase, acts, greets, go_on_greeted, greeted, to_greeting,
  to_serving, Step, Reach,
}
use orb_relay_messages.System.Measured.{
  charges, charges_all, charges-append, charges_all-append, IsBudget, spent, happens-spent,
  resumes-spent, resumes-next,
}

module _ {charge : Msg → ℕ} {out : Effect → ℕ} {store : State → ℕ} {budget : Sender → ℕ}
    (opts : ClientOpts) (measure : IsMeasure (carried charge out) store charge opts)
    (paid : IsBudget charge out budget) where
  abbrev IsExactAt : {A : Type 0} → ℕ → Act A → Up → State → Type 0
  IsExactAt k f up s =
      total (carried charge out) (f up s).effects + store (f up s).state ≡ k + store s

  -- Code takes exactly what it is charged, and a call exactly the budget of its channel.
  pub record IsExact : Type 0 where
    pub handles :
        (m : Msg) (up : Up) (s : State) → IsAlive up → IsExactAt (charge m) (handle_msg opts m) up s
    pub starts : (up : Up) (s : State) → IsExactAt 0 (start_heartbeat opts) up s
    pub calls :
        (c : Client) (tx : Sender) (call : Call)
        → charges charge (issued c tx call).0 + budget tx ≡ budget (tx + 1)

  quiet-IsExactAt :
      {A : Type 0} (f : Act A) (up : Up) (s : State)
      → ((n : ℕ)
          → Keeps (Stores (carried charge out) store n) (IsFree (carried charge out) store) f)
      → IsExactAt 0 f up s
  quiet-IsExactAt f up s k = omega (arith, quiet-exact (carried charge out) store f k up s)

  bind-IsExactAt :
      {A B : Type 0} (f : Act A) (g : A → Act B) (up : Up) (s : State)
      → IsExactAt 0 f up s
      → ((a : A) (t : State) → IsExactAt 0 (g a) up t)
      → IsExactAt 0 (f >>= g) up s
  bind-IsExactAt {A} f g up s h k = go (f up s).result
    where
      d : Done A
      d = f up s

      go :
          (r : Outcome Err A)
          → total (carried charge out) (continue up d.state d.effects g r).effects
              + store (continue up d.state d.effects g r).state
            ≡ 0 + store s
      go (ok a) = omega (
        arith,
        total-append (carried charge out) d.effects (g a up d.state).effects,
        k a d.state,
        h,
      )
      go (err e) = omega (arith, h)
      go panic = omega (arith, h)

  open_stream-IsExactAt :
      (net : Answers) (up : Up) (s : State) → IsExactAt 0 (open_stream opts net) up s
  open_stream-IsExactAt net up s = quiet-IsExactAt _ up s (λ n.
      open_stream-Keeps opts measure.dial measure.open_stream (λ r. measure.to_tonic _)
        measure.hand_on net)

  greet_item-IsExactAt : (i : StreamItem) (up : Up) (s : State) → IsExactAt 0 (greet_item i) up s
  greet_item-IsExactAt i up s = quiet-IsExactAt _ up s (λ n.
      greet_item-Keeps opts measure.dial measure.open_stream (λ r. measure.to_tonic _)
        measure.hand_on i)

  module _ (exact : IsExact) where
    greets-IsExactAt : (i : StreamItem) (up : Up) (s : State) → IsExactAt 0 (greets opts i) up s
    unfolding greets
    greets-IsExactAt i up s =
        bind-IsExactAt (greet_item i) (go_on_greeted opts) up s (greet_item-IsExactAt i up s)
          λ more t. elim more as (λ b. IsExactAt 0 (go_on_greeted opts b) up t) [
            | true ↦ omega arith
            | false ↦
                bind-IsExactAt (start_heartbeat opts) (λ _. pure false) up t (exact.starts up t)
                  (λ _ u. omega arith)
          ]

    item-IsExactAt :
        (i : StreamItem) (up : Up) (s : State)
        → IsAlive up
        → IsExactAt 0 (receive opts (Received.from_stream i)) up s
    unfolding receive
    item-IsExactAt (StreamItem.message (some r)) up s l =
        omega (arith, exact.handles (Msg.relay_response r) up s l, paid.response_free r)
    item-IsExactAt (StreamItem.message none) up s l = refl
    item-IsExactAt (StreamItem.status t) up s l = refl
    item-IsExactAt StreamItem.ended up s l = refl

    abbrev Balances : System → Type 0
    Balances s = spent opts measure paid s ≡ budget s.next

    acts-Balances :
        {A : Type 0} (k n : ℕ) (to : A → Phase) (f : Act A) (up : Up) (s : System)
        → IsExactAt k f up s.state
        → k + spent opts measure paid s ≡ budget s.next
        → Balances (acts opts n to f up s)
    acts-Balances k n to f up s x h =
        let d = f up s.state in
        let t : System = record s { state = d.state } in
        omega (
          arith,
          resumes-spent opts measure paid n to d.result (happens d.effects t),
          happens-spent opts measure paid d.effects t,
          ap budget (resumes-next opts measure paid n to d.result (happens d.effects t)),
        )

    Step-Balances : {s t : System} → Step opts s t → Balances s → Balances t
    Step-Balances {s} (Step.call c can) h = omega (
      arith,
      charges_all-append charge s.calls ((issued s.client s.next c).0 ∷ []),
      exact.calls s.client s.next c,
    )
    Step-Balances {s} (Step.put before after m ms e r) h = omega (
      arith,
      ap (charges_all charge) e,
      charges_all-append charge before ((m ∷ ms) ∷ after),
      charges_all-append charge before (ms ∷ after),
      charges-append charge s.channel (m ∷ []),
    )
    Step-Balances {s} (Step.fire before after m e r) h = omega (
      arith,
      ap (charges charge) e,
      charges-append charge before (m ∷ after),
      charges-append charge before after,
      charges-append charge s.channel (m ∷ []),
    )
    Step-Balances {s} (Step.take m ms n up e p l) h =
        acts-Balances (charge m) n (to_serving n) (handle_msg opts m) up (record s { channel = ms })
          (exact.handles m up s.state l) (omega (arith, ap (charges charge) e))
    Step-Balances {s} (Step.item i n up b p l) h =
        acts-Balances 0 n (to_serving n) (receive opts (Received.from_stream i)) up s
          (item-IsExactAt i up s.state l) (omega arith)
    Step-Balances {s} (Step.dial net n up p l) h =
        acts-Balances 0 n (to_greeting n) (open_stream opts net) up s
          (open_stream-IsExactAt net up s.state) (omega arith)
    Step-Balances {s} (Step.greet i n up p l) h =
        acts-Balances 0 n (greeted n) (greets opts i) up s (greets-IsExactAt i up s.state)
          (omega arith)
    Step-Balances {s} (Step.time_out n up p) h =
        acts-Balances 0 n (to_greeting {A = Unit {0}} n) (raise timed_out) up s (omega arith)
          (omega arith)

    pub Reach-Balances : {s : System} → store initial ≡ budget 0 → Reach opts s → Balances s
    Reach-Balances b Reach.start = omega arith
    Reach-Balances b (Reach.next_step r st) = Step-Balances st (Reach-Balances b r)
