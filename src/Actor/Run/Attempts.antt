-- ===== src/Actor/Run/Attempts.antt =====
-- How often the loop of `run` connects.
use orb_relay_messages.Common.{
  ℕ, suc, ◌+◌, ◌%◌, max, ◌∙◌, dec_lt, ◌≤◌, ◌<◌, ◌≡◌, true, false, List, [], ◌∷◌, ◌++◌, length,
  arith, refl,
}
use orb_relay_messages.Common.Bytes.{u64_mod}
use orb_relay_messages.Common.Outcome.{err}
use orb_relay_messages.Amount
use orb_relay_messages.Amount.{Amount}
use orb_relay_messages.Client.{Err, ClientOpts}
use orb_relay_messages.Actor.Defs.{State, Effect}
use orb_relay_messages.Actor.Run.{
  Session, Ending, Next, after_error, conclude, round, run_loop, then_report,
}

-- Errors that count as a failed attempt.
abbrev pub Counts : Err → Type 0
Counts Err.stop_request = ⊥
Counts Err.reconnect_request = ⊥
Counts _ = Unit {0}

-- Every round ends in an error that counts.
abbrev pub AllFail : ClientOpts → State → List Session → Type 0
AllFail opts s [] = Unit {0}
AllFail opts s (x ∷ xs) =
    ((e : Err) × ((round opts s x).result ≡ err e) × Counts e)
    × AllFail opts (round opts s x).state xs

counted :
    (opts : ClientOpts) (n : ℕ) (e : Err)
    → Counts e
    → Amount.le opts.max_connection_attempts n ≡ true
    → after_error opts n e ≡ Next.finish (Ending.failed e)
unfolding after_error
counted opts n Err.stop_request c h = elim c [ ]
counted opts n Err.reconnect_request c h = elim c [ ]
counted opts n _ c h = ground arith

not_counted :
    (opts : ClientOpts) (n : ℕ) (e : Err)
    → Counts e
    → Amount.le opts.max_connection_attempts n ≡ false
    → after_error opts n e
      ≡ Next.again (Effect.sleep opts.connection_backoff ∷ []) ((n + 1) % u64_mod)
unfolding after_error
not_counted opts n Err.stop_request c h = elim c [ ]
not_counted opts n Err.reconnect_request c h = elim c [ ]
not_counted opts n _ c h = ground arith

module _ (opts : ClientOpts) (n : ℕ) (s : State) (x : Session) (xs : List Session) (e : Err) where
  step_fail :
      (round opts s x).result ≡ err e
      → Counts e
      → Amount.le opts.max_connection_attempts n ≡ true
      → run_loop opts n s (x ∷ xs) ≡ record {
        ending = Ending.failed e;
        state = (round opts s x).state;
        effects = (round opts s x).effects;
        attempts = n;
      }
  unfolding run_loop
  step_fail r c h = rw (r, conclude, counted opts n e c h)

  step_again :
      (round opts s x).result ≡ err e
      → Counts e
      → Amount.le opts.max_connection_attempts n ≡ false
      → run_loop opts n s (x ∷ xs)
        ≡ then_report
            ((round opts s x).effects ++ Effect.sleep opts.connection_backoff ∷ [])
            (run_loop opts ((n + 1) % u64_mod) (round opts s x).state xs)
  unfolding run_loop
  step_again r c h = rw (r, conclude, not_counted opts n e c h)

module _ (opts : ClientOpts) (m : ℕ) (bound : opts.max_connection_attempts ≡ Amount.val m) where
  at_bound : (n : ℕ) → m ≤ n → Amount.le opts.max_connection_attempts n ≡ true
  unfolding Amount.le
  at_bound n h = rw bound (ground arith)

  below_bound : (n : ℕ) → n < m → Amount.le opts.max_connection_attempts n ≡ false
  unfolding Amount.le
  below_bound n h = rw bound (ground arith)

  -- With a finite limit m the loop gives up: if the next rounds all fail, it ends with an error as
  -- soon as the count of attempts has reached m, whatever rounds would follow. It makes one attempt
  -- under a limit of 0, too.
  pub gives_up :
      (n : ℕ) (s : State) (xs ys : List Session)
      → m < u64_mod
      → AllFail opts s xs
      → length xs + n ≡ suc (max n m)
      → (e : Err) × Counts e
        × ((run_loop opts n s (xs ++ ys)).ending ≡ Ending.failed e)
        × ((run_loop opts n s (xs ++ ys)).attempts ≡ max n m)
  gives_up n s [] ys b f len = absurd (omega arith)
  gives_up n s (x ∷ xs) ys b ((e, r, c), f) len = elim (dec_lt n m) [
    | yes l ↦
        let n' : (n + 1) % u64_mod ≡ n + 1 = omega arith in
        let (e', c', p, q) = gives_up (n + 1) (round opts s x).state xs ys b f (omega arith) in
        let st = step_again opts n s x (xs ++ ys) e r c (below_bound n l) in
        rw (st, n') (e', c', p, q ∙ omega arith)
    | no l ↦
        let st = step_fail opts n s x (xs ++ ys) e r c (at_bound n (omega arith)) in
        rw st (e, c, refl, omega arith)
  ]

  -- And not before: while the count with the failing rounds stays within m, the loop goes on.
  keeps_trying :
      (n : ℕ) (s : State) (xs : List Session)
      → m < u64_mod
      → AllFail opts s xs
      → length xs + n ≤ m
      → ((run_loop opts n s xs).ending ≡ Ending.running)
        × ((run_loop opts n s xs).attempts ≡ n + length xs)
  unfolding run_loop
  keeps_trying n s [] b f len = (refl, omega arith)
  keeps_trying n s (x ∷ xs) b ((e, r, c), f) len =
      let n' : (n + 1) % u64_mod ≡ n + 1 = omega arith in
      let (p, q) = keeps_trying (n + 1) (round opts s x).state xs b f (omega arith) in
      let st = step_again opts n s x xs e r c (below_bound n (omega arith)) in
      rw (st, n') (p, q ∙ omega arith)
