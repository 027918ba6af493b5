-- ===== src/System/Remembered.antt =====
-- Nobody who waits is forgotten by a client at work.
use orb_relay_messages.Common.{ℕ, ◌+◌, ◌≤◌, refl, ite, arith, ℕ_discrete}
use orb_relay_messages.Common.HashMap
use orb_relay_messages.Common.HashMap.{HashMap}
use orb_relay_messages.Relay.{ResponseMsg}
use orb_relay_messages.Client.{ClientId, Seq, QoS, SendMessage, ClientOpts}
use orb_relay_messages.Actor.Defs.{State, Msg, ReplyKey-discrete}
use orb_relay_messages.Actor.Monad.{Up}
use orb_relay_messages.Actor.Handler.{ask_retries, handle_msg, retry_ack_found, retry_ask_found}
use orb_relay_messages.Actor.Keeps.{pure-Keeps, raise-Keeps, send_or-Keeps}
use orb_relay_messages.Actor.Handler.Keeps.{
  retry_ack-Keeps, retry_ask-Keeps, heartbeat-Keeps, start_heartbeat-Keeps,
  handle_relay_payload-Keeps, handle_ack-Keeps,
}
use orb_relay_messages.Actor.Pending.{Entry}
use orb_relay_messages.System.{IsAlive, System, Reach}
use orb_relay_messages.System.Measured.{charges}
use orb_relay_messages.System.Upheld.{MakesUp, IsUpheld, quiet-MakesUp, Reach-IsOwed}
use orb_relay_messages.System.Retried.{
  Persists, retries_for, found, removed-le, inserted-le, first_retry, retry-MakesUp,
}

module _ (seq : Seq) where
  abbrev waiter : Entry → ℕ
  waiter e = 1

  -- Whether a sender waits for the ack of the number, and the timers that would send again.
  abbrev pub waits_for_ack : State → ℕ
  waits_for_ack s = found ℕ_discrete seq waiter s.pending_acks

  abbrev pub ack_timers : Msg → ℕ
  ack_timers (Msg.retry_ack k left) = retries_for ℕ_discrete seq k left
  ack_timers _ = 0

  module _ (opts : ClientOpts) (persists : Persists opts.max_message_attempts) where
    wait_for_ack-MakesUp :
        (m : SendMessage) (tx k : ℕ) (up : Up) (s : State)
        → MakesUp ack_timers waits_for_ack opts (Msg.wait_for_ack m tx k) up s
    unfolding handle_msg
    wait_for_ack-MakesUp m tx k up s = omega (
      arith,
      inserted-le ℕ_discrete seq waiter k (m, tx) s.pending_acks,
      first_retry ℕ_discrete seq waiter (λ t. t.pending_acks) ack_timers opts persists k,
    )

    acks-MakesUp :
        (m : Msg) (up : Up) (s : State) → IsAlive up → MakesUp ack_timers waits_for_ack opts m up s
    unfolding handle_msg retry_ack_found
    acks-MakesUp (Msg.wait_for_ack m tx k) up s l = wait_for_ack-MakesUp m tx k up s
    acks-MakesUp (Msg.retry_ack k left) up s l =
        retry-MakesUp ℕ_discrete seq waiter (λ t. t.pending_acks) ack_timers opts persists k k left
          opts.ack_timeout (Msg.retry_ack k) up s l (λ a. refl) (λ e. rw e refl) (λ x e. rw e refl)
    acks-MakesUp (Msg.relay_response (ResponseMsg.ack a)) up s l =
        quiet-MakesUp ack_timers waits_for_ack opts (Msg.relay_response (ResponseMsg.ack a)) up s
          refl
          (λ n.
            handle_ack-Keeps
              (λ t k h. omega (arith, removed-le ℕ_discrete seq waiter k t.pending_acks)) (λ t. tt)
              a.seq)
    acks-MakesUp (Msg.relay_response (ResponseMsg.payload p)) up s l =
        quiet-MakesUp ack_timers waits_for_ack opts (Msg.relay_response (ResponseMsg.payload p)) up
          s refl
          (λ n. handle_relay_payload-Keeps (λ t k h. h) (λ r. tt) (λ t r. tt) p.payload p.src p.seq)
    acks-MakesUp (Msg.relay_response (ResponseMsg.connect_response c)) up s l =
        quiet-MakesUp ack_timers waits_for_ack opts
          (Msg.relay_response (ResponseMsg.connect_response c)) up s refl (λ n. pure-Keeps tt)
    acks-MakesUp (Msg.send r) up s l =
        quiet-MakesUp ack_timers waits_for_ack opts (Msg.send r) up s refl
          (λ n. send_or-Keeps _ _ _ tt)
    acks-MakesUp (Msg.wait_for_reply m tx k) up s l = omega arith
    acks-MakesUp (Msg.retry_ask c k left) up s l =
        quiet-MakesUp ack_timers waits_for_ack opts (Msg.retry_ask c k left) up s refl
          (λ n. retry_ask-Keeps opts (λ m k. tt) c k left (λ a. tt))
    acks-MakesUp Msg.stop up s l =
        quiet-MakesUp ack_timers waits_for_ack opts Msg.stop up s refl (λ n. raise-Keeps _)
    acks-MakesUp Msg.reconnect up s l =
        quiet-MakesUp ack_timers waits_for_ack opts Msg.reconnect up s refl (λ n. raise-Keeps _)
    acks-MakesUp Msg.heartbeat up s l =
        quiet-MakesUp ack_timers waits_for_ack opts Msg.heartbeat up s refl
          (λ n. heartbeat-Keeps opts tt tt)

    acks-IsUpheld : IsUpheld ack_timers waits_for_ack opts
    unfolding HashMap.get
    acks-IsUpheld = record {
      each = acks-MakesUp;
      beat = λ n. start_heartbeat-Keeps opts (λ t h. h) tt;
      response = λ r. refl;
      start = refl;
    }

-- A question that is asked with `QoS::AtMostOnce` is not sent again.
abbrev insists : QoS → ℕ
insists QoS.at_most_once = 0
insists QoS.at_least_once = 1

module _ (key : ClientId × Seq) where
  abbrev asker : Entry → ℕ
  asker e = insists e.0.qos

  -- Whether a question with `QoS::AtLeastOnce` waits under the key, and the timers that would send
  -- again.
  abbrev pub waits_for_reply : State → ℕ
  waits_for_reply s = found ReplyKey-discrete key asker s.pending_replies

  abbrev pub reply_timers : Msg → ℕ
  reply_timers (Msg.retry_ask c k left) = retries_for ReplyKey-discrete key (c, k) left
  reply_timers _ = 0

  module _ (opts : ClientOpts) (persists : Persists opts.max_message_attempts) where
    first_ask :
        (k : ClientId × Seq) (q : QoS)
        → ite (ReplyKey-discrete k key) (insists q) 0
          ≤ retries_for ReplyKey-discrete key k (ask_retries opts q)
    unfolding ask_retries
    first_ask k QoS.at_most_once = ground arith
    first_ask k QoS.at_least_once = omega (
      arith,
      first_retry ReplyKey-discrete key asker (λ t. t.pending_replies) reply_timers opts persists k,
    )

    wait_for_reply-MakesUp :
        (m : SendMessage) (tx k : ℕ) (up : Up) (s : State)
        → MakesUp reply_timers waits_for_reply opts (Msg.wait_for_reply m tx k) up s
    unfolding handle_msg
    wait_for_reply-MakesUp m tx k up s = omega (
      arith,
      inserted-le ReplyKey-discrete key asker (m.target_id, k) (m, tx) s.pending_replies,
      first_ask (m.target_id, k) m.qos,
    )

    replies-MakesUp :
        (m : Msg) (up : Up) (s : State)
        → IsAlive up
        → MakesUp reply_timers waits_for_reply opts m up s
    unfolding handle_msg retry_ask_found
    replies-MakesUp (Msg.wait_for_reply m tx k) up s l = wait_for_reply-MakesUp m tx k up s
    replies-MakesUp (Msg.retry_ask c k left) up s l =
        retry-MakesUp ReplyKey-discrete key asker (λ t. t.pending_replies) reply_timers opts
          persists (c, k) k left opts.reply_timeout (Msg.retry_ask c k) up s l (λ a. refl)
          (λ e. rw e refl) (λ x e. rw e refl)
    replies-MakesUp (Msg.relay_response (ResponseMsg.ack a)) up s l =
        quiet-MakesUp reply_timers waits_for_reply opts (Msg.relay_response (ResponseMsg.ack a)) up
          s refl (λ n. handle_ack-Keeps (λ t k h. h) (λ t. tt) a.seq)
    replies-MakesUp (Msg.relay_response (ResponseMsg.payload p)) up s l =
        quiet-MakesUp reply_timers waits_for_reply opts (Msg.relay_response (ResponseMsg.payload p))
          up s refl
          (λ n.
            handle_relay_payload-Keeps
              (λ t k h. omega (arith, removed-le ReplyKey-discrete key asker k t.pending_replies))
              (λ r. tt) (λ t r. tt) p.payload p.src p.seq)
    replies-MakesUp (Msg.relay_response (ResponseMsg.connect_response c)) up s l =
        quiet-MakesUp reply_timers waits_for_reply opts
          (Msg.relay_response (ResponseMsg.connect_response c)) up s refl (λ n. pure-Keeps tt)
    replies-MakesUp (Msg.send r) up s l =
        quiet-MakesUp reply_timers waits_for_reply opts (Msg.send r) up s refl
          (λ n. send_or-Keeps _ _ _ tt)
    replies-MakesUp (Msg.wait_for_ack m tx k) up s l = omega arith
    replies-MakesUp (Msg.retry_ack k left) up s l =
        quiet-MakesUp reply_timers waits_for_reply opts (Msg.retry_ack k left) up s refl
          (λ n. retry_ack-Keeps opts (λ m k. tt) k left (λ a. tt))
    replies-MakesUp Msg.stop up s l =
        quiet-MakesUp reply_timers waits_for_reply opts Msg.stop up s refl (λ n. raise-Keeps _)
    replies-MakesUp Msg.reconnect up s l =
        quiet-MakesUp reply_timers waits_for_reply opts Msg.reconnect up s refl (λ n. raise-Keeps _)
    replies-MakesUp Msg.heartbeat up s l =
        quiet-MakesUp reply_timers waits_for_reply opts Msg.heartbeat up s refl
          (λ n. heartbeat-Keeps opts tt tt)

    replies-IsUpheld : IsUpheld reply_timers waits_for_reply opts
    unfolding HashMap.get
    replies-IsUpheld = record {
      each = replies-MakesUp;
      beat = λ n. start_heartbeat-Keeps opts (λ t h. h) tt;
      response = λ r. refl;
      start = refl;
    }

-- Nobody who waits is forgotten. With no limit on repetitions, or one of two or more: at every
-- time, whatever the client, the server, the timers and the connections did in whatever order,
-- where a sender waits for the ack of a number, and where a question with `QoS::AtLeastOnce` waits
-- for its reply, a timer that would send it again runs, or has fired and is on the channel of the
-- actor.
pub nobody_forgotten :
    (opts : ClientOpts)
    → Persists opts.max_message_attempts
    → (s : System) → Reach opts s
    → (seq : Seq) (key : ClientId × Seq)
    → (waits_for_ack seq s.state
        ≤ charges (ack_timers seq) s.timers + charges (ack_timers seq) s.channel)
      × (waits_for_reply key s.state
          ≤ charges (reply_timers key) s.timers + charges (reply_timers key) s.channel)
nobody_forgotten opts persists s r seq key = (
  Reach-IsOwed (ack_timers seq) (waits_for_ack seq) opts (acks-IsUpheld seq opts persists) r,
  Reach-IsOwed (reply_timers key) (waits_for_reply key) opts (replies-IsUpheld key opts persists) r,
)
