-- ===== src/Actor/Run/Amortized.antt =====
-- A count over what the actor of relay-client/src/actor.rs does, paid for by what it receives: each
-- message has a charge, the state a store, and what an effect weighs is taken from both.
use orb_relay_messages.Common.{ℕ, ◌+◌, ◌≤◌, ◌≡◌, refl, none, some, List, [], ◌∷◌, ◌++◌, All, arith}
use orb_relay_messages.Common.Outcome.{Outcome, ok, err, panic}
use orb_relay_messages.Common.Bytes.{Text}
use orb_relay_messages.Relay.{RelayConnectRequest, ResponseMsg}
use orb_relay_messages.Client.{Err, Duration, ClientOpts}
use orb_relay_messages.Actor.Defs.{State, Dial, Msg, Effect}
use orb_relay_messages.Actor.Monad.{Up, Done, Act, continue, ◌>>=◌}
use orb_relay_messages.Actor.Handler.{handle_msg}
use orb_relay_messages.Actor.Session.{
  StreamItem, Answers, Received, Input, greet_item, open_stream, connect, receive, serve,
  start_heartbeat, main_loop,
}
use orb_relay_messages.Actor.Keeps.{
  Keeps, pure-Keeps, raise-Keeps, greet_item-Keeps, open_stream-Keeps, connect-Keeps,
}
use orb_relay_messages.Actor.Run.Keeps.{Leaves, after_error-Leaves}
use orb_relay_messages.Actor.Run.{
  Session, Report, Next, after_error, go_on, conclude, round, run_loop,
}

abbrev pub total : (Effect → ℕ) → List Effect → ℕ
total weight [] = 0
total weight (e ∷ es) = weight e + total weight es

-- What an effect weighs if the messages that it sends the actor weigh their charges.
abbrev pub carried : (Msg → ℕ) → (Effect → ℕ) → Effect → ℕ
carried charge out (Effect.later d m) = charge m
carried charge out (Effect.to_actor m) = charge m
carried charge out e = out e

pub total-append :
    (weight : Effect → ℕ) (es fs : List Effect)
    → total weight (es ++ fs) ≡ total weight es + total weight fs
total-append weight [] fs = omega arith
total-append weight (e ∷ es) fs = omega (arith, total-append weight es fs)

pub total-carried :
    (charge : Msg → ℕ) (out : Effect → ℕ)
    → ((d : Duration) (m : Msg) → out (Effect.later d m) ≡ 0)
    → ((m : Msg) → out (Effect.to_actor m) ≡ 0)
    → (es : List Effect) → total out es ≤ total (carried charge out) es
total-carried charge out h k [] = omega arith
total-carried charge out h k (Effect.later d m ∷ es) =
    omega (arith, h d m, total-carried charge out h k es)
total-carried charge out h k (Effect.to_actor m ∷ es) =
    omega (arith, k m, total-carried charge out h k es)
total-carried charge out h k (_ ∷ es) = omega (arith, total-carried charge out h k es)

-- The charges of what the loop receives.
abbrev pub charged_by : (Msg → ℕ) → Received → ℕ
charged_by charge (Received.from_actor m) = charge m
charged_by charge (Received.from_stream (StreamItem.message (some r))) =
    charge (Msg.relay_response r)
charged_by charge _ = 0

abbrev pub charged_in : (Msg → ℕ) → List Input → ℕ
charged_in charge [] = 0
charged_in charge (i ∷ is) = charged_by charge i.received + charged_in charge is

abbrev pub charged : (Msg → ℕ) → List Session → ℕ
charged charge [] = 0
charged charge (x ∷ xs) = charged_in charge x.inputs + charged charge xs

module _ (weight : Effect → ℕ) (store : State → ℕ) where
  -- An action takes at most `n` and what is stored.
  pub record Costs {A : Type 0} (n : ℕ) (m : Act A) : Type 0 where
    pub at :
        (up : Up) (s : State) → total weight (m up s).effects + store (m up s).state ≤ n + store s

  pub bind-Costs :
      {A B : Type 0} (j k : ℕ) {m : Act A} {f : A → Act B}
      → Costs j m
      → ((a : A) → Costs k (f a))
      → Costs (j + k) (m >>= f)
  bind-Costs {A} {B} j k {m} {f} c d = record { at = λ up s. go up s (m up s).result (c.at up s) }
    where
      go :
          (up : Up) (s : State) (r : Outcome Err A)
          → total weight (m up s).effects + store (m up s).state ≤ j + store s
          → total weight (continue up (m up s).state (m up s).effects f r).effects
              + store (continue up (m up s).state (m up s).effects f r).state
            ≤ j + k + store s
      go up s (ok a) h = omega (
        arith,
        (d a).at up (m up s).state,
        total-append weight (m up s).effects (f a up (m up s).state).effects,
      )
      go up s (err e) h = omega arith
      go up s panic h = omega arith

  abbrev pub IsFree : Effect → Type 0
  IsFree e = weight e ≡ 0

  abbrev pub Stores : ℕ → State → Type 0
  Stores n s = store s ≡ n

  pub total-IsFree : (es : List Effect) → All IsFree es → total weight es ≡ 0
  total-IsFree [] h = refl
  total-IsFree (e ∷ es) h = omega (arith, h.0, total-IsFree es h.1)

  -- Code whose effects weigh nothing, and that leaves the store alone.
  pub quiet-exact :
      {A : Type 0} (m : Act A)
      → ((n : ℕ) → Keeps (Stores n) IsFree m)
      → (up : Up) (s : State) → total weight (m up s).effects + store (m up s).state ≡ store s
  quiet-exact m k up s =
      let (same, q) = (k (store s)).at up s refl in
      omega (arith, same, total-IsFree (m up s).effects q)

  pub quiet-Costs : {A : Type 0} (m : Act A) → ((n : ℕ) → Keeps (Stores n) IsFree m) → Costs 0 m
  quiet-Costs m k = record { at = λ up s. omega (arith, quiet-exact m k up s) }

  -- A measure of the actor: what its code takes is charged to the messages that it handles.
  module _ (charge : Msg → ℕ) where
    pub record IsMeasure (opts : ClientOpts) : Type 0 where
      pub dial : (d : Dial) → IsFree (Effect.dial d)
      pub open_stream : (h : List (Text × Text)) → IsFree (Effect.open_stream h)
      pub to_tonic : (r : RelayConnectRequest) → IsFree (Effect.to_tonic r)
      pub hand_on : (r : ResponseMsg) → IsFree (Effect.to_actor (Msg.relay_response r))
      pub sleep : (d : Duration) → IsFree (Effect.sleep d)
      pub starts : Costs 0 (start_heartbeat opts)
      pub handles : (m : Msg) → Costs (charge m) (handle_msg opts m)

    module _ {opts : ClientOpts} (measure : IsMeasure opts) where
      pub connect-Costs : (net : Answers) → Costs 0 (connect opts net)
      connect-Costs net = quiet-Costs _ (λ n.
          connect-Keeps opts measure.dial measure.open_stream (λ r. measure.to_tonic _)
            measure.hand_on net)

      pub open_stream-Costs : (net : Answers) → Costs 0 (open_stream opts net)
      open_stream-Costs net = quiet-Costs _ (λ n.
          open_stream-Keeps opts measure.dial measure.open_stream (λ r. measure.to_tonic _)
            measure.hand_on net)

      pub greet_item-Costs : (i : StreamItem) → Costs 0 (greet_item i)
      greet_item-Costs i = quiet-Costs _ (λ n.
          greet_item-Keeps opts measure.dial measure.open_stream (λ r. measure.to_tonic _)
            measure.hand_on i)

      pub receive-Costs : (r : Received) → Costs (charged_by charge r) (receive opts r)
      unfolding receive
      receive-Costs (Received.from_actor m) = measure.handles m
      receive-Costs Received.actor_closed = quiet-Costs _ (λ n. raise-Keeps _)
      receive-Costs (Received.from_stream StreamItem.ended) = quiet-Costs _ (λ n. raise-Keeps _)
      receive-Costs (Received.from_stream (StreamItem.status t)) =
          quiet-Costs _ (λ n. raise-Keeps _)
      receive-Costs (Received.from_stream (StreamItem.message none)) =
          quiet-Costs _ (λ n. pure-Keeps tt)
      receive-Costs (Received.from_stream (StreamItem.message (some r))) =
          measure.handles (Msg.relay_response r)

      serve-Costs : (is : List Input) → Costs (charged_in charge is) (serve opts is)
      unfolding serve
      serve-Costs [] = quiet-Costs _ (λ n. pure-Keeps tt)
      serve-Costs (i ∷ is) =
          bind-Costs (charged_by charge i.received) (charged_in charge is)
            {m = λ _. receive opts i.received i.up}
            (record { at = λ _. (receive-Costs i.received).at i.up }) (λ _. serve-Costs is)

      main_loop-Costs :
          (net : Answers) (is : List Input)
          → Costs (0 + (0 + charged_in charge is)) (main_loop opts net is)
      unfolding main_loop
      main_loop-Costs net is =
          bind-Costs 0 (0 + charged_in charge is) (connect-Costs net)
            λ _. bind-Costs 0 (charged_in charge is) measure.starts λ _. serve-Costs is

      abbrev Spends : ℕ → Report → Type 0
      Spends n r = total weight r.effects + store r.state ≤ n

      go_on-Spends :
          (d : Done (Unit {0})) (n j k : ℕ) (x : Next) (rest : ℕ → Report)
          → Leaves IsFree x
          → total weight d.effects + store d.state ≤ j
          → ((m : ℕ) → Spends (k + store d.state) (rest m))
          → Spends (j + k) (go_on d n x rest)
      unfolding go_on
      go_on-Spends d n j k (Next.finish e) rest l h g = omega arith
      go_on-Spends d n j k (Next.again es m) rest l h g = omega (
        arith,
        total-append weight d.effects es,
        total-append weight (d.effects ++ es) (rest m).effects,
        total-IsFree es l,
        g m,
      )

      conclude-Spends :
          (d : Done (Unit {0})) (n j k : ℕ) (r : Outcome Err (Unit {0})) (rest : ℕ → Report)
          → total weight d.effects + store d.state ≤ j
          → ((m : ℕ) → Spends (k + store d.state) (rest m))
          → Spends (j + k) (conclude opts d n r rest)
      unfolding conclude
      conclude-Spends d n j k (ok a) rest h g = omega arith
      conclude-Spends d n j k panic rest h g = omega arith
      conclude-Spends d n j k (err e) rest h g =
          go_on-Spends d n j k (after_error opts n e) rest
            (after_error-Leaves IsFree opts n e (measure.sleep _)) h g

      -- Over any rounds of any number of connections.
      pub run_loop-Spends :
          (n : ℕ) (s : State) (xs : List Session)
          → Spends (charged charge xs + store s) (run_loop opts n s xs)
      unfolding run_loop
      run_loop-Spends n s [] = omega arith
      run_loop-Spends n s (x ∷ xs) =
          let d = round opts s x in
          let c = (main_loop-Costs x.answers x.inputs).at x.up s in
          omega (
            arith,
            conclude-Spends d n (0 + (0 + charged_in charge x.inputs) + store s) (charged charge xs)
                d.result (λ m. run_loop opts m d.state xs) c (λ m. run_loop-Spends m d.state xs),
          )
