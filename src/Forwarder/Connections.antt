-- ===== src/Forwarder/Connections.antt =====
-- The forwarders of relay-client/src/flume_receiver_stream.rs on the one flume channel of a client:
-- each connection starts one (relay-client/src/actor.rs), and its token is cancelled when the
-- connection ends.
use orb_relay_messages.Common.{
  ℕ, zero, suc, ◌<◌, ◌≡◌, refl, sym, ap, ◌∙◌, true, List, [], ◌∷◌, ◌++◌, length, append_assoc,
  append-nil, arith,
}
use orb_relay_messages.Forwarder.{
  Task, Line, Event, send, select, poll, read_from, step, steps, new,
}
use orb_relay_messages.Forwarder.Order.{pushed}

-- `xs` is `ys` with some elements left out.
pub data IsSublist {ℓ} {A : Type ℓ} : List A → List A → Type ℓ where
  nil : IsSublist [] []
  keep : (x : A) {xs ys : List A} → IsSublist xs ys → IsSublist (x ∷ xs) (x ∷ ys)
  skip : (x : A) {xs ys : List A} → IsSublist xs ys → IsSublist xs (x ∷ ys)

module _ {ℓ} {A : Type ℓ} where
  poll_cancelled :
      (size : ℕ) (t : Task A) (l : Line A)
      → l.cancelled ≡ true
      → ((poll size t l).queue ≡ l.queue) × ((poll size t l).cancelled ≡ true)
  unfolding poll select send
  poll_cancelled size Task.selecting l c = ground (arith, c)
  poll_cancelled size (Task.sending x) l c = ground (arith, c)
  poll_cancelled size Task.finished l c = (refl, c)
  poll_cancelled size (Task.dropped x) l c = (refl, c)

  read_cancelled :
      (b : List A) (l : Line A)
      → l.cancelled ≡ true
      → ((read_from b l).queue ≡ l.queue) × ((read_from b l).cancelled ≡ true)
  unfolding read_from
  read_cancelled [] l c = (refl, c)
  read_cancelled (x ∷ b) l c = ground (arith, c)

  step_cancelled :
      (size : ℕ) (e : Event A) (es : List (Event A)) (l : Line A)
      → l.cancelled ≡ true
      → ((step size e l).queue ++ pushed es ≡ l.queue ++ pushed (e ∷ es))
        × ((step size e l).cancelled ≡ true)
  unfolding step
  step_cancelled size (Event.push x) es l c = (append_assoc l.queue (x ∷ []) (pushed es), c)
  step_cancelled size Event.turn es l c =
      let (q, d) = poll_cancelled size l.task l c in (ap (λ z. z ++ pushed es) q, d)
  step_cancelled size Event.read es l c =
      let (q, d) = read_cancelled l.buffer l c in (ap (λ z. z ++ pushed es) q, d)
  step_cancelled size Event.cancel es l c = (refl, refl)
  step_cancelled size Event.disconnect es l c = (refl, c)
  step_cancelled size Event.close es l c = (refl, c)

  -- Once its token is cancelled, a forwarder takes nothing more off the flume channel, whatever
  -- happens in whatever order: what waits and what is still sent stays for the next connection.
  pub cancelled_leaves_queue :
      (size : ℕ) (es : List (Event A)) (l : Line A)
      → l.cancelled ≡ true
      → (steps size es l).queue ≡ l.queue ++ pushed es
  unfolding steps
  cancelled_leaves_queue size [] l c = sym (append-nil _)
  cancelled_leaves_queue size (e ∷ es) l c =
      let (q, d) = step_cancelled size e es l c in
      cancelled_leaves_queue size es (step size e l) d ∙ q

  -- What the streams of some connections give to the server in turn, and what then still waits.
  unfoldable pub connections : ℕ → List A → List (List (Event A)) → List A × List A
  connections size q [] = ([], q)
  connections size q (es ∷ ess) =
      let l = steps size es (new q) in
      let (given, rest) = connections size l.queue ess in (l.taken ++ given, rest)

  abbrev pub all_pushed : List (List (Event A)) → List A
  all_pushed [] = []
  all_pushed (es ∷ ess) = pushed es ++ all_pushed ess

  -- The task is polled twice and the stream read, `n` times.
  abbrev pub rounds : ℕ → List (Event A)
  rounds zero = []
  rounds (suc n) = Event.turn ∷ Event.turn ∷ Event.read ∷ rounds n

  -- One message from the flume channel to the reader.
  passed_on :
      (size : ℕ) (x : A) (q taken : List A)
      → 0 < size
      → steps size (rounds 1) (record (new (x ∷ q)) { taken = taken })
        ≡ record (new q) { taken = taken ++ x ∷ [] }
  unfolding steps new
  passed_on size x q taken h = ground arith

  deliver_from :
      (size : ℕ) (q taken : List A)
      → 0 < size
      → steps size (rounds (length q)) (record (new q) { taken = taken })
        ≡ record (new []) { taken = taken ++ q }
  unfolding steps new step
  deliver_from size [] taken h = rw append-nil
  deliver_from size (x ∷ q) taken h =
      ap (steps size (rounds (length q))) (passed_on size x q taken h)
      ∙ deliver_from size q (taken ++ x ∷ []) h
      ∙ ap (λ (z : List A). record (new []) { taken = z }) (append_assoc taken (x ∷ []) q)

  -- A connection that stays up delivers: with room for one message at least, as many rounds of
  -- polling and reading as messages wait give all of them to the server.
  pub rounds-deliver :
      (size : ℕ) (q : List A)
      → 0 < size
      → steps size (rounds (length q)) (new q) ≡ record (new []) { taken = q }
  unfolding new
  rounds-deliver size q h = deliver_from size q [] h
