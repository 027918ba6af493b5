-- ===== src/Actor/Run/Stops.antt =====
-- How the task of `run` ends, and what `stop` and `reconnect` do to it.
use orb_relay_messages.Common.{
  ℕ, Bool, true, false, ◌≡◌, ◌≢◌, refl, ap, ◌∙◌, append-nil, Option, none, some, List, [], ◌∷◌,
  ◌++◌,
}
use orb_relay_messages.Common.Outcome.{Outcome, ok, err, panic}
use orb_relay_messages.Common.Bytes.{Text}
use orb_relay_messages.Amount
use orb_relay_messages.Amount.{Amount}
use orb_relay_messages.Client.{Err, ClientOpts}
use orb_relay_messages.Actor.Defs.{State, Msg}
use orb_relay_messages.Actor.Monad.{Up, Done, Act, ◌>>=◌, prefix, continue}
use orb_relay_messages.Actor.Session.{
  Answers, Received, Input, connect, receive, serve, start_heartbeat, main_loop,
}
use orb_relay_messages.Actor.Run.{
  ParseUri, Scheme, then_report, Session, Ending, Report, validate_endpoint, go_on, conclude, round,
  run_loop, start, run, initial, then_report,
}

-- A result that is not a failure of the whole task.
not_failed :
    (opts : ClientOpts) (d : Done (Unit {0})) (n : ℕ) (r : Outcome Err (Unit {0}))
    (rest : ℕ → Report) (e : Err)
    → opts.max_connection_attempts ≡ Amount.infinite
    → ((m : ℕ) → (rest m).ending ≢ Ending.failed e)
    → (conclude opts d n r rest).ending ≢ Ending.failed e
unfolding conclude Amount.le
not_failed opts d n (ok a) rest e i h = λ p. cc
not_failed opts d n panic rest e i h = λ p. cc
not_failed opts d n (err Err.stop_request) rest e i h = λ p. cc
not_failed opts d n (err Err.reconnect_request) rest e i h = h n
not_failed opts d n (err _) rest e i h = rw (i, go_on) (h _)

-- Under an infinite limit no failure ends the task, whatever the rounds bring.
pub run_loop-ne-failed :
    (opts : ClientOpts) (n : ℕ) (s : State) (xs : List Session) (e : Err)
    → opts.max_connection_attempts ≡ Amount.infinite
    → (run_loop opts n s xs).ending ≢ Ending.failed e
unfolding run_loop
run_loop-ne-failed opts n s [] e i = λ p. cc
run_loop-ne-failed opts n s (x ∷ xs) e i =
    let d = round opts s x in
    not_failed opts d n d.result _ e i (λ m. run_loop-ne-failed opts m d.state xs e i)

refused :
    (parse : ParseUri) (endpoint : Text)
    → parse endpoint ≢ some (some Scheme.https)
    → (e : Err) × (validate_endpoint parse endpoint ≡ err e)
unfolding validate_endpoint
refused parse endpoint h = go (parse endpoint) refl
  where
    insecure : Err
    insecure = Err.other "relay endpoint must use https"

    go :
        (u : Option (Option Scheme))
        → parse endpoint ≡ u
        → (e : Err) × (validate_endpoint parse endpoint ≡ err e)
    go none e = (Err.other "invalid relay endpoint URI", rw e)
    go (some none) e = (insecure, rw e)
    go (some (some Scheme.http)) e = (insecure, rw e)
    go (some (some (Scheme.other_scheme t))) e = (insecure, rw e)
    go (some (some Scheme.https)) e = absurd (h e)

-- An endpoint that is no URI with the scheme https ends the task with an error before anything is
-- sent or any connection tried, whatever the network would answer.
pub run_insecure :
    (parse : ParseUri) (opts : ClientOpts) (xs : List Session)
    → parse opts.endpoint ≢ some (some Scheme.https)
    → (e : Err) × (run parse opts xs
        ≡ record { ending = Ending.failed e; state = initial; effects = []; attempts = 0 })
unfolding run
run_insecure parse opts xs h = let (e, p) = refused parse opts.endpoint h in (e, rw (p, start))

-- `m'` does what `m` does, and fails with `e` where `m` succeeds.
abbrev Cuts : {A : Type 0} → Err → Act A → Act A → Type 0
Cuts {A} e m m' =
    (up : Up) (s : State) (a : A)
    → (m up s).result ≡ ok a
    → m' up s ≡ record (m up s) { result = err e }

bind-Cuts :
    {A B : Type 0} (e : Err) (m : Act A) (f f' : A → Act B)
    → ((a : A) → Cuts e (f a) (f' a))
    → Cuts e (m >>= f) (m >>= f')
bind-Cuts {A} {B} e m f f' c up s b h = go (m up s).result h
  where
    go :
        (r : Outcome Err A)
        → (continue up (m up s).state (m up s).effects f r).result ≡ ok b
        → continue up (m up s).state (m up s).effects f' r
          ≡ record (continue up (m up s).state (m up s).effects f r) { result = err e }
    go (ok a) h = ap (prefix (m up s).effects) (c a up (m up s).state b h)
    go (err e) h = cc
    go panic h = cc

-- The two requests that end a connection: to stop, and to reconnect.
abbrev request : Bool → Msg
request true = Msg.stop
request false = Msg.reconnect

abbrev requested : Bool → Err
requested true = Err.stop_request
requested false = Err.reconnect_request

abbrev with_request : Bool → Up → List Input → List Input → List Input
with_request b up is later =
    is ++ record { up = up; received = Received.from_actor (request b) } ∷ later

serve-Cuts :
    (opts : ClientOpts) (b : Bool) (is : List Input) (up : Up) (later : List Input)
    → Cuts (requested b) (serve opts is) (serve opts (with_request b up is later))
unfolding serve
serve-Cuts opts true [] up later = λ _ s a h. refl
serve-Cuts opts false [] up later = λ _ s a h. refl
serve-Cuts opts b (i ∷ is) up later =
    bind-Cuts (requested b) (λ _. receive opts i.received i.up) (λ _. serve opts is) (λ _. _)
      (λ _. serve-Cuts opts b is up later)

main_loop-Cuts :
    (opts : ClientOpts) (b : Bool) (net : Answers) (is : List Input) (up : Up) (later : List Input)
    → Cuts (requested b) (main_loop opts net is) (main_loop opts net (with_request b up is later))
unfolding main_loop
main_loop-Cuts opts b net is up later =
    bind-Cuts (requested b) (connect opts net) _ _
      λ _. bind-Cuts (requested b) (start_heartbeat opts) _ _ λ _. serve-Cuts opts b is up later

-- `stop` ends the task with `Ok`: if a connection is up and has handled some inputs, then with the
-- request to stop behind them the task is stopped, with exactly the state and the effects of those
-- inputs. What was queued behind the request and later rounds are never handled.
stop_ends :
    (opts : ClientOpts) (net : Answers) (is later : List Input) (up up' : Up) (n : ℕ) (s : State)
    (xs : List Session)
    → (main_loop opts net is up s).result ≡ ok tt
    → run_loop opts n s (
        record {
          up = up;
          answers = net;
          inputs = is ++ record { up = up'; received = Received.from_actor Msg.stop } ∷ later;
        }
        ∷ xs)
      ≡ record {
        ending = Ending.stopped;
        state = (main_loop opts net is up s).state;
        effects = (main_loop opts net is up s).effects;
        attempts = n;
      }
unfolding run_loop
stop_ends opts net is later up up' n s xs h =
    ap (λ (d : Done (Unit {0})). conclude opts d n d.result (λ m. run_loop opts m d.state xs))
      (main_loop-Cuts opts true net is up' later up s tt h)

-- `reconnect` starts the next round at once: if a connection is up and has handled some inputs,
-- then with the request behind them the loop goes on with the next round, without a sleep, with no
-- attempt counted, and with exactly the state and the effects of those inputs, so that every pending
-- send and question waits on. What is behind the request is not handled in this round.
pub reconnect_goes_on :
    (opts : ClientOpts) (net : Answers) (is later : List Input) (up up' : Up) (n : ℕ) (s : State)
    (xs : List Session)
    → (main_loop opts net is up s).result ≡ ok tt
    → run_loop opts n s (
        record {
          up = up;
          answers = net;
          inputs = is ++ record { up = up'; received = Received.from_actor Msg.reconnect } ∷ later;
        }
        ∷ xs)
      ≡ then_report
          (main_loop opts net is up s).effects
          (run_loop opts n (main_loop opts net is up s).state xs)
unfolding run_loop
reconnect_goes_on opts net is later up up' n s xs h =
    let d = main_loop opts net is up s in
    ap (λ (d : Done (Unit {0})). conclude opts d n d.result (λ m. run_loop opts m d.state xs))
      (main_loop-Cuts opts false net is up' later up s tt h)
    ∙ ap (λ es. then_report es (run_loop opts n d.state xs)) (append-nil d.effects)
