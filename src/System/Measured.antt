-- ===== src/System/Measured.antt =====
-- A count over a client at work that never exceeds its budget: what its effects weigh, what its
-- state stores, and what the messages under way will be charged, however its steps are ordered.
use orb_relay_messages.Actor.Keeps.{pure-Keeps, raise-Keeps}
use orb_relay_messages.Common.{
  ℕ, ◌+◌, ◌≤◌, ◌≡◌, refl, ap, true, false, none, some, List, [], ◌∷◌, ◌++◌, arith,
}
use orb_relay_messages.Common.Outcome.{Outcome, ok, err, panic}
use orb_relay_messages.Relay.{ResponseMsg}
use orb_relay_messages.Client.{Sender, Duration, Err, ClientOpts}
use orb_relay_messages.Actor.Defs.{State, Msg, Effect}
use orb_relay_messages.Actor.Monad.{raise, Up, Act}
use orb_relay_messages.Actor.Handler.{handle_msg}
use orb_relay_messages.Actor.Session.{timed_out, open_stream, StreamItem, Received}
use orb_relay_messages.Actor.Run.{Next, after_error, initial}
use orb_relay_messages.Actor.Run.Keeps.{Leaves, after_error-Leaves}
use orb_relay_messages.Actor.Run.Amortized.{
  total, total-append, carried, charged_by, Costs, IsMeasure, IsFree, total-IsFree, bind-Costs,
  open_stream-Costs, greet_item-Costs, quiet-Costs, receive-Costs,
}
use orb_relay_messages.Api.{Client}
use orb_relay_messages.System.{
  Phase, Call, System, issued, armed, handed, happens, resumes, moves_on, acts, greets,
  go_on_greeted, greeted, to_greeting, to_serving, Step, Reach,
}

module _ (charge : Msg → ℕ) where
  abbrev pub charges : List Msg → ℕ
  charges [] = 0
  charges (m ∷ ms) = charge m + charges ms

  abbrev pub charges_all : List (List Msg) → ℕ
  charges_all [] = 0
  charges_all (ms ∷ rest) = charges ms + charges_all rest

  pub charges-append : (ms ns : List Msg) → charges (ms ++ ns) ≡ charges ms + charges ns
  charges-append [] ns = omega arith
  charges-append (m ∷ ms) ns = omega (arith, charges-append ms ns)

  pub charges_all-append :
      (xs ys : List (List Msg)) → charges_all (xs ++ ys) ≡ charges_all xs + charges_all ys
  charges_all-append [] ys = omega arith
  charges_all-append (x ∷ xs) ys = omega (arith, charges_all-append xs ys)

-- What comes from outside: effects that are counted go to no message, a response is charged nothing,
-- and a call is charged within the budget of the channel that it makes.
pub record IsBudget (charge : Msg → ℕ) (out : Effect → ℕ) (budget : Sender → ℕ) : Type 0 where
  pub later_free : (d : Duration) (m : Msg) → out (Effect.later d m) ≡ 0
  pub to_actor_free : (m : Msg) → out (Effect.to_actor m) ≡ 0
  pub response_free : (r : ResponseMsg) → charge (Msg.relay_response r) ≡ 0
  pub call_paid :
      (c : Client) (tx : Sender) (call : Call)
      → charges charge (issued c tx call).0 + budget tx ≤ budget (tx + 1)

module _ {charge : Msg → ℕ} {out : Effect → ℕ} {store : State → ℕ} {budget : Sender → ℕ}
    (opts : ClientOpts) (measure : IsMeasure (carried charge out) store charge opts)
    (paid : IsBudget charge out budget) where
  abbrev pub under_way : System → ℕ
  under_way s = charges charge s.timers + (charges charge s.channel + charges_all charge s.calls)

  abbrev pub spent : System → ℕ
  spent s = total out s.effects + (store s.state + under_way s)

  total-carried_split :
      (es : List Effect)
      → total (carried charge out) es
        ≡ total out es + (charges charge (armed es) + charges charge (handed es))
  total-carried_split [] = omega arith
  total-carried_split (Effect.later d m ∷ es) =
      omega (arith, paid.later_free d m, total-carried_split es)
  total-carried_split (Effect.to_actor m ∷ es) =
      omega (arith, paid.to_actor_free m, total-carried_split es)
  total-carried_split (_ ∷ es) = omega (arith, total-carried_split es)

  pub happens-spent :
      (es : List Effect) (s : System)
      → spent (happens es s) ≡ total (carried charge out) es + spent s
  happens-spent es s = omega (
    arith,
    total-append out s.effects es,
    charges-append charge s.timers (armed es),
    charges-append charge s.channel (handed es),
    total-carried_split es,
  )

  pub resumes-spent :
      {A : Type 0} (n : ℕ) (to : A → Phase) (r : Outcome Err A) (s : System)
      → spent (resumes opts n to r s) ≡ spent s
  unfolding resumes
  resumes-spent n to (ok a) s = refl
  resumes-spent n to panic s = refl
  resumes-spent n to (err e) s =
      go (after_error opts n e) (after_error-Leaves _ opts n e (measure.sleep _))
    where
      go :
          (x : Next) → Leaves (IsFree (carried charge out) store) x → spent (moves_on x s) ≡ spent s
      go (Next.finish e') l = refl
      go (Next.again es m) l =
          omega (arith, happens-spent es s, total-IsFree (carried charge out) store es l)

  pub resumes-next :
      {A : Type 0} (n : ℕ) (to : A → Phase) (r : Outcome Err A) (s : System)
      → (resumes opts n to r s).next ≡ s.next
  unfolding resumes
  resumes-next n to (ok a) s = refl
  resumes-next n to panic s = refl
  resumes-next n to (err e) s = go (after_error opts n e)
    where
      go : (x : Next) → (moves_on x s).next ≡ s.next
      go (Next.finish e') = refl
      go (Next.again es m) = refl

  acts-spent :
      {A : Type 0} (k n : ℕ) (to : A → Phase) (f : Act A) (up : Up) (s : System)
      → Costs (carried charge out) store k f
      → spent (acts opts n to f up s) ≤ k + spent s
  acts-spent k n to f up s c =
      let d = f up s.state in
      let t : System = record s { state = d.state } in
      omega (
        arith,
        resumes-spent n to d.result (happens d.effects t),
        happens-spent d.effects t,
        c.at up s.state,
      )

  abbrev Holds : System → Type 0
  Holds s = spent s ≤ budget s.next

  acts-Holds :
      {A : Type 0} (k n : ℕ) (to : A → Phase) (f : Act A) (up : Up) (s : System)
      → Costs (carried charge out) store k f
      → k + spent s ≤ budget s.next
      → Holds (acts opts n to f up s)
  acts-Holds k n to f up s c h =
      let d = f up s.state in
      omega (
        arith,
        acts-spent k n to f up s c,
        ap budget (resumes-next n to d.result (happens d.effects (record s { state = d.state }))),
      )

  pub item_free : (i : StreamItem) → charged_by charge (Received.from_stream i) ≡ 0
  item_free (StreamItem.message (some r)) = paid.response_free r
  item_free (StreamItem.message none) = refl
  item_free (StreamItem.status t) = refl
  item_free StreamItem.ended = refl

  greets-Costs : (i : StreamItem) → Costs (carried charge out) store 0 (greets opts i)
  unfolding greets
  greets-Costs i =
      bind-Costs (carried charge out) store 0 0 (greet_item-Costs _ _ _ measure i) λ more.
        elim more as (λ b. Costs (carried charge out) store 0 (go_on_greeted opts b)) [
          | true ↦ quiet-Costs _ _ _ (λ n. pure-Keeps true)
          | false ↦
              bind-Costs (carried charge out) store 0 0 measure.starts
                (λ _. quiet-Costs _ _ _ (λ n. pure-Keeps false))
        ]

  Step-Holds : {s t : System} → Step opts s t → Holds s → Holds t
  Step-Holds {s} (Step.call c can) h = omega (
    arith,
    charges_all-append charge s.calls ((issued s.client s.next c).0 ∷ []),
    paid.call_paid s.client s.next c,
  )
  Step-Holds {s} (Step.put before after m ms e r) h = omega (
    arith,
    ap (charges_all charge) e,
    charges_all-append charge before ((m ∷ ms) ∷ after),
    charges_all-append charge before (ms ∷ after),
    charges-append charge s.channel (m ∷ []),
  )
  Step-Holds {s} (Step.fire before after m e r) h = omega (
    arith,
    ap (charges charge) e,
    charges-append charge before (m ∷ after),
    charges-append charge before after,
    charges-append charge s.channel (m ∷ []),
  )
  Step-Holds {s} (Step.take m ms n up e p l) h =
      acts-Holds (charge m) n (to_serving n) (handle_msg opts m) up (record s { channel = ms })
        (measure.handles m) (omega (arith, ap (charges charge) e))
  Step-Holds {s} (Step.item i n up b p l) h =
      acts-Holds (charged_by charge (Received.from_stream i)) n (to_serving n) _ up s
        (receive-Costs _ _ _ measure (Received.from_stream i)) (omega (arith, item_free i))
  Step-Holds {s} (Step.dial net n up p l) h =
      acts-Holds 0 n (to_greeting n) (open_stream opts net) up s
        (open_stream-Costs _ _ _ measure net) (omega arith)
  Step-Holds {s} (Step.greet i n up p l) h =
      acts-Holds 0 n (greeted n) (greets opts i) up s (greets-Costs i) (omega arith)
  Step-Holds {s} (Step.time_out n up p) h =
      acts-Holds 0 n (to_greeting {A = Unit {0}} n) (raise timed_out) up s
        (quiet-Costs _ _ _ (λ n. raise-Keeps _)) (omega arith)

  pub Reach-Holds : {s : System} → store initial ≤ budget 0 → Reach opts s → Holds s
  Reach-Holds b Reach.start = omega arith
  Reach-Holds b (Reach.next_step r st) = Step-Holds st (Reach-Holds b r)
