-- ===== src/Actor/Run/Heartbeats.antt =====
-- The heartbeat timers over all rounds of `run`.
use orb_relay_messages.Common.{
  ℕ, ◌+◌, ◌≤◌, ◌≡◌, refl, Bool, true, false, if◌then◌else◌, List, arith, ◌⊎◌, inl, inr,
}
use orb_relay_messages.Relay.{ResponseMsg}
use orb_relay_messages.Client.{ClientOpts}
use orb_relay_messages.Actor.Defs.{State, Msg, Channel, Effect}
use orb_relay_messages.Actor.Monad.{Up}
use orb_relay_messages.Actor.Handler.{ask_retries, handle_msg}
use orb_relay_messages.Actor.Session.{start_heartbeat}
use orb_relay_messages.Actor.Keeps.{
  Keeps, pure-Keeps, raise-Keeps, send_or-Keeps, bind-Keeps, modify-Keeps, later-Keeps,
}
use orb_relay_messages.Actor.Handler.Keeps.{
  retry_ack-Keeps, retry_ask-Keeps, handle_relay_payload-Keeps, handle_ack-Keeps,
}
use orb_relay_messages.Actor.Run.{Session, run_loop}
use orb_relay_messages.Actor.Run.Amortized.{
  total, carried, charged, Costs, IsFree, Stores, quiet-Costs, quiet-exact, IsMeasure,
  run_loop-Spends,
}

abbrev pub beats_of : Msg → ℕ
beats_of Msg.heartbeat = 1
beats_of _ = 0

abbrev pub beats_in : Effect → ℕ
beats_in = carried beats_of (λ e. 0)

-- The heartbeat timers that are started, and the heartbeats that timers bring.
abbrev pub started : List Effect → ℕ
started = total beats_in

abbrev pub fired : List Session → ℕ
fired = charged beats_of

-- One timer is still to be started before the first connection.
abbrev pub to_start : State → ℕ
to_start s = if s.heartbeat_started then 0 else 1

pub start-exact :
    (opts : ClientOpts) (up : Up) (s : State)
    → let d = start_heartbeat opts up s in started d.effects + to_start d.state ≡ to_start s
unfolding start_heartbeat
start-exact opts up s = go s.heartbeat_started refl
  where
    go :
        (b : Bool)
        → s.heartbeat_started ≡ b
        → let d = start_heartbeat opts up s in started d.effects + to_start d.state ≡ to_start s
    go true e = rw e (omega arith)
    go false e = rw e (omega arith)

-- A message other than the heartbeat starts none.
quiet_msg :
    (opts : ClientOpts) (m : Msg)
    → beats_of m ≡ 0
    → (n : ℕ) → Keeps (Stores beats_in to_start n) (IsFree beats_in to_start) (handle_msg opts m)
unfolding handle_msg
quiet_msg opts (Msg.relay_response (ResponseMsg.ack a)) h n =
    handle_ack-Keeps (λ s t w. w) (λ t. refl) a.seq
quiet_msg opts (Msg.relay_response (ResponseMsg.payload p)) h n =
    handle_relay_payload-Keeps (λ s t w. w) (λ r. refl) (λ t r. refl) p.payload p.src p.seq
quiet_msg opts (Msg.relay_response (ResponseMsg.connect_response c)) h n = pure-Keeps tt
quiet_msg opts (Msg.send r) h n = send_or-Keeps _ _ _ refl
quiet_msg opts (Msg.wait_for_ack m tx k) h n =
    bind-Keeps (modify-Keeps _ (λ s w. w))
      (λ _. later-Keeps opts.ack_timeout (Msg.retry_ack k opts.max_message_attempts) refl)
quiet_msg opts (Msg.wait_for_reply m tx k) h n = bind-Keeps (modify-Keeps _ (λ s w. w)) (λ _.
    later-Keeps opts.reply_timeout (Msg.retry_ask m.target_id k (ask_retries opts m.qos)) refl)
quiet_msg opts (Msg.retry_ack k a) h n = retry_ack-Keeps opts (λ m k. refl) k a (λ a. refl)
quiet_msg opts (Msg.retry_ask c k a) h n = retry_ask-Keeps opts (λ m k. refl) c k a (λ a. refl)
quiet_msg opts Msg.stop h n = raise-Keeps _
quiet_msg opts Msg.reconnect h n = raise-Keeps _
quiet_msg opts Msg.heartbeat h n = absurd (omega arith)

one_beat_on :
    (opts : ClientOpts) (up : Up) (s : State)
    → let d = handle_msg opts Msg.heartbeat up s in
      (started d.effects + to_start d.state ≤ 1 + to_start s)
      × (up Channel.tonic ≡ true → started d.effects + to_start d.state ≡ 1 + to_start s)
unfolding handle_msg
one_beat_on opts up s = ground arith

beat_or_quiet : (m : Msg) → (m ≡ Msg.heartbeat) ⊎ (beats_of m ≡ 0)
beat_or_quiet Msg.heartbeat = inl refl
beat_or_quiet _ = inr refl

handle_msg-Costs :
    (opts : ClientOpts) (m : Msg) → Costs beats_in to_start (beats_of m) (handle_msg opts m)
handle_msg-Costs opts m = go (beat_or_quiet m)
  where
    go :
        (m ≡ Msg.heartbeat) ⊎ (beats_of m ≡ 0)
        → Costs beats_in to_start (beats_of m) (handle_msg opts m)
    go (inl e) = rw e (record { at = λ up s. (one_beat_on opts up s).0 })
    go (inr z) = rw z (quiet-Costs _ _ _ (quiet_msg opts m z))

-- With the channel to the server open, exactly the heartbeat starts the next one.
pub handle_msg-exact :
    (opts : ClientOpts) (m : Msg) (up : Up) (s : State)
    → up Channel.tonic ≡ true
    → let d = handle_msg opts m up s in
      started d.effects + to_start d.state ≡ beats_of m + to_start s
handle_msg-exact opts m up s u = go (beat_or_quiet m)
  where
    go :
        (m ≡ Msg.heartbeat) ⊎ (beats_of m ≡ 0)
        → let d = handle_msg opts m up s in
          started d.effects + to_start d.state ≡ beats_of m + to_start s
    go (inl e) = rw e ((one_beat_on opts up s).1 u)
    go (inr z) = rw z (omega (arith, quiet-exact _ _ _ (quiet_msg opts m z) up s))

pub beats-IsMeasure : (opts : ClientOpts) → IsMeasure beats_in to_start beats_of opts
beats-IsMeasure opts = record {
  dial = λ d. refl;
  open_stream = λ h. refl;
  to_tonic = λ r. refl;
  hand_on = λ r. refl;
  sleep = λ d. refl;
  starts = record { at = λ up s. omega (arith, start-exact opts up s) };
  handles = handle_msg-Costs opts;
}

-- Never two heartbeats at a time: over any rounds of any number of connections, at most one timer
-- more is started than has fired, and none more if the first one was started before.
started-le-fired :
    (opts : ClientOpts) (n : ℕ) (s : State) (xs : List Session)
    → started (run_loop opts n s xs).effects ≤ fired xs + to_start s
started-le-fired opts n s xs =
    omega (arith, run_loop-Spends beats_in to_start beats_of (beats-IsMeasure opts) n s xs)
