-- ===== src/Forwarder.antt =====
-- relay-client/src/flume_receiver_stream.rs: the task that moves the requests of the client from
-- its flume channel to the bounded tokio channel behind the stream of one connection.
pub mod Order
pub mod Connections
use orb_relay_messages.Common.{
  ℕ, Bool, true, false, if◌then◌else◌, ltb, List, [], ◌∷◌, ◌++◌, length,
}

-- Where the task stands: in its `select!`, in `tx.send`, or past its loop, by a `break` or because
-- the flume channel is closed; `dropped` holds the message that the last `tx.send` did not deliver.
pub data Task {ℓ} (A : Type ℓ) : Type ℓ where
  selecting finished : Task A
  sending dropped : A → Task A

-- `flume_rx`, the task, the tokio channel, and what the stream has given to its reader.
pub record Line {ℓ} (A : Type ℓ) : Type ℓ where
  pub queue : List A
  pub task : Task A
  pub buffer : List A
  pub taken : List A
  -- `cancellation_token`
  pub cancelled : Bool
  -- every flume sender is dropped
  pub disconnected : Bool
  -- the stream is dropped
  pub closed : Bool

-- What may happen next, in any order: a message is sent on the flume channel, the task is polled,
-- the stream is read, the token is cancelled, the senders or the stream are dropped.
pub data Event {ℓ} (A : Type ℓ) : Type ℓ where
  push : A → Event A
  turn read cancel disconnect close : Event A

module _ {ℓ} {A : Type ℓ} where
  -- `flume_rx.recv_async()`, which waits while the channel is empty and has senders.
  unfoldable pub recv : List A → Line A → Line A
  recv [] l = if l.disconnected then record l { task = Task.finished } else l
  recv (x ∷ q) l = record l { queue = q; task = Task.sending x }

  -- `tx.send(msg).await`, which waits while the buffer is full.
  unfoldable pub send : ℕ → A → Line A → Line A
  send size x l =
      if l.closed
      then record l { task = Task.dropped x }
      else if ltb (length l.buffer) size
      then record l { task = Task.selecting; buffer = l.buffer ++ x ∷ [] }
      else l

  -- The biased `select!` looks at the token first.
  unfoldable pub select : Line A → Line A
  unfolding recv
  select l = if l.cancelled then record l { task = Task.finished } else recv l.queue l

  unfoldable pub poll : ℕ → Task A → Line A → Line A
  unfolding send select
  poll size Task.selecting l = select l
  poll size (Task.sending x) l = send size x l
  poll size Task.finished l = l
  poll size (Task.dropped x) l = l

  unfoldable pub read_from : List A → Line A → Line A
  read_from [] l = l
  read_from (x ∷ b) l = if l.closed then l else record l { buffer = b; taken = l.taken ++ x ∷ [] }

  unfoldable pub step : ℕ → Event A → Line A → Line A
  unfolding poll read_from
  step size (Event.push x) l = record l { queue = l.queue ++ x ∷ [] }
  step size Event.turn l = poll size l.task l
  step size Event.read l = read_from l.buffer l
  step size Event.cancel l = record l { cancelled = true }
  step size Event.disconnect l = record l { disconnected = true }
  step size Event.close l = record l { closed = true }

  unfoldable pub steps : ℕ → List (Event A) → Line A → Line A
  unfolding step
  steps size [] l = l
  steps size (e ∷ es) l = steps size es (step size e l)

  -- `new`, on a channel with messages that wait.
  unfoldable pub new : List A → Line A
  new q = record {
    queue = q;
    task = Task.selecting;
    buffer = [];
    taken = [];
    cancelled = false;
    disconnected = false;
    closed = false;
  }
