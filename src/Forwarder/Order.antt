-- ===== src/Forwarder/Order.antt =====
-- What becomes of the messages on the flume channel of relay-client/src/flume_receiver_stream.rs.
use orb_relay_messages.Common.{
  ℕ, ◌+◌, ◌≤◌, ◌≡◌, refl, sym, ap, ◌∙◌, List, [], ◌∷◌, ◌++◌, length, length-append, append_assoc,
  append-nil, arith,
}
use orb_relay_messages.Forwarder.{
  Task, Line, Event, recv, send, select, poll, read_from, step, steps, new,
}

module _ {ℓ} {A : Type ℓ} where
  -- The message that the task has in hand.
  abbrev pub in_hand : Task A → List A
  in_hand (Task.sending x) = x ∷ []
  in_hand (Task.dropped x) = x ∷ []
  in_hand _ = []

  -- Neither on the flume channel any more nor read from the stream.
  abbrev pub under_way : Line A → List A
  under_way l = l.buffer ++ in_hand l.task

  abbrev pub pushed : List (Event A) → List A
  pushed [] = []
  pushed (Event.push x ∷ es) = x ∷ pushed es
  pushed (_ ∷ es) = pushed es

  -- All messages of a line, in order.
  abbrev contents : Line A → List A
  contents l = l.taken ++ (under_way l ++ l.queue)

  push_contents :
      (l : Line A) (x : A)
      → contents (record l { queue = l.queue ++ x ∷ [] }) ≡ contents l ++ x ∷ []
  push_contents l x = simp append_assoc

  recv-contents :
      (q : List A) (l : Line A)
      → l.queue ≡ q
      → l.task ≡ Task.selecting
      → contents (recv q l) ≡ contents l
  unfolding recv
  recv-contents [] l e t = ground (arith, t)
  recv-contents (x ∷ q) l e t =
      rw (t, e, append-nil) (ap (λ y. l.taken ++ y) (append_assoc l.buffer (x ∷ []) q))

  sent_contents :
      (x : A) (l : Line A)
      → l.task ≡ Task.sending x
      → contents (record l { task = Task.selecting; buffer = l.buffer ++ x ∷ [] }) ≡ contents l
  sent_contents x l t = rw (t, append-nil)

  send-contents :
      (size : ℕ) (x : A) (l : Line A)
      → l.task ≡ Task.sending x
      → contents (send size x l) ≡ contents l
  unfolding send
  send-contents size x l t = ground (arith, t, sent_contents x l t)

  poll-contents :
      (size : ℕ) (t : Task A) (l : Line A) → l.task ≡ t → contents (poll size t l) ≡ contents l
  unfolding poll select
  poll-contents size Task.selecting l e = ground (arith, e, recv-contents l.queue l refl e)
  poll-contents size (Task.sending x) l e = send-contents size x l e
  poll-contents size Task.finished l e = refl
  poll-contents size (Task.dropped x) l e = refl

  was_read :
      (x : A) (b : List A) (l : Line A)
      → l.buffer ≡ x ∷ b
      → contents (record l { buffer = b; taken = l.taken ++ x ∷ [] }) ≡ contents l
  was_read x b l e = rw e (append_assoc l.taken (x ∷ []) _)

  read-contents : (b : List A) (l : Line A) → l.buffer ≡ b → contents (read_from b l) ≡ contents l
  unfolding read_from
  read-contents [] l e = refl
  read-contents (x ∷ b) l e = ground (arith, was_read x b l e)

  step-contents :
      (size : ℕ) (e : Event A) (l : Line A)
      → contents (step size e l) ≡ contents l ++ pushed (e ∷ [])
  unfolding step
  step-contents size (Event.push x) l = push_contents l x
  step-contents size Event.turn l = poll-contents size l.task l refl ∙ sym (append-nil _)
  step-contents size Event.read l = read-contents l.buffer l refl ∙ sym (append-nil _)
  step-contents size Event.cancel l = sym (append-nil _)
  step-contents size Event.disconnect l = sym (append-nil _)
  step-contents size Event.close l = sym (append-nil _)

  pushed_cons : (e : Event A) (es : List (Event A)) → pushed (e ∷ es) ≡ pushed (e ∷ []) ++ pushed es
  pushed_cons (Event.push x) es = refl
  pushed_cons Event.turn es = refl
  pushed_cons Event.read es = refl
  pushed_cons Event.cancel es = refl
  pushed_cons Event.disconnect es = refl
  pushed_cons Event.close es = refl

  steps-contents :
      (size : ℕ) (es : List (Event A)) (l : Line A)
      → contents (steps size es l) ≡ contents l ++ pushed es
  unfolding steps
  steps-contents size [] l = sym (append-nil _)
  steps-contents size (e ∷ es) l =
      steps-contents size es (step size e l)
      ∙ ap (λ c. c ++ pushed es) (step-contents size e l)
      ∙ append_assoc (contents l) _ _
      ∙ ap (λ p. contents l ++ p) (sym (pushed_cons e es))

  recv-buffer : (q : List A) (l : Line A) → (recv q l).buffer ≡ l.buffer
  unfolding recv
  recv-buffer [] l = ground arith
  recv-buffer (x ∷ q) l = refl

  poll-buffer :
      (size : ℕ) (t : Task A) (l : Line A)
      → length l.buffer ≤ size
      → length (poll size t l).buffer ≤ size
  unfolding poll select send
  poll-buffer size Task.selecting l h = ground (arith, recv-buffer l.queue l)
  poll-buffer size (Task.sending x) l h = ground (arith, length-append l.buffer (x ∷ []))
  poll-buffer size Task.finished l h = h
  poll-buffer size (Task.dropped x) l h = h

  read-buffer :
      (b : List A) (l : Line A) → l.buffer ≡ b → length (read_from b l).buffer ≤ length l.buffer
  unfolding read_from
  read-buffer [] l e = omega arith
  read-buffer (x ∷ b) l e = ground (arith, ap length e)

  step-buffer :
      (size : ℕ) (e : Event A) (l : Line A)
      → length l.buffer ≤ size
      → length (step size e l).buffer ≤ size
  unfolding step
  step-buffer size (Event.push x) l h = h
  step-buffer size Event.turn l h = poll-buffer size l.task l h
  step-buffer size Event.read l h = omega (arith, read-buffer l.buffer l refl)
  step-buffer size Event.cancel l h = h
  step-buffer size Event.disconnect l h = h
  step-buffer size Event.close l h = h

  steps-buffer :
      (size : ℕ) (es : List (Event A)) (l : Line A)
      → length l.buffer ≤ size
      → length (steps size es l).buffer ≤ size
  unfolding steps
  steps-buffer size [] l h = h
  steps-buffer size (e ∷ es) l h = steps-buffer size es (step size e l) (step-buffer size e l h)

  in_hand-le : (t : Task A) → length (in_hand t) ≤ 1
  in_hand-le Task.selecting = omega arith
  in_hand-le Task.finished = omega arith
  in_hand-le (Task.sending x) = omega arith
  in_hand-le (Task.dropped x) = omega arith

  -- One connection keeps the order and loses little: whatever happens in whatever order, what was
  -- waiting and what is sent is what the stream has given, then at most the buffer's size and one
  -- more, then what is still waiting, each message once and in the order of sending.
  pub new-order :
      (size : ℕ) (q : List A) (es : List (Event A))
      → let l = steps size es (new q) in
        (q ++ pushed es ≡ l.taken ++ (under_way l ++ l.queue)) × (length (under_way l) ≤ size + 1)
  unfolding new
  new-order size q es =
      let l = steps size es (new q) in
      (
        sym (steps-contents size es (new q)),
        omega (
          arith,
          length-append l.buffer (in_hand l.task),
          in_hand-le l.task,
          steps-buffer size es (new q) (omega arith),
        ),
      )
