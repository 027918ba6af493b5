-- ===== src/Tests/Handlers.antt =====
-- The handlers of relay-client/src/actor.rs on concrete messages.
use orb_relay_messages.Common.{
  true, false, ℕ, ◌≡◌, ◌≢◌, refl, none, some, List, [], ◌∷◌, ℕ_discrete, arith,
}
use orb_relay_messages.Common.Bytes.{Text, bytes}
use orb_relay_messages.Common.HashMap
use orb_relay_messages.Amount
use orb_relay_messages.Amount.{Amount}
use orb_relay_messages.Relay.{EntityType}
use orb_relay_messages.Client.{Settings, ClientOpts, Auth, Err, entity, to, QoS, SendMessage}
use orb_relay_messages.Actor.Defs.{State, Msg, Effect, ReplyKey-discrete}
use orb_relay_messages.Actor.Monad.{Done, ◌>>◌}
use orb_relay_messages.Actor.Handler.{ask_retries, handle_msg}
use orb_relay_messages.Actor.Handler.Retries.{follow, ack_retries, ask_retries_lem}
use orb_relay_messages.Actor.Handler.Races.{wait_for_ack-evicts, early_reply}
use orb_relay_messages.Actor.Pending.{Waits, Unused}
use orb_relay_messages.Actor.Session.{Received, StreamItem, Input}
use orb_relay_messages.Actor.Spec.{expected}
use orb_relay_messages.Actor.Spec.Whole.{nobody, story}
use orb_relay_messages.Actor.Spec.Tells.{Tells, initial-Shows, run_loop-Tells}
use orb_relay_messages.Actor.Payload.{recvd, payload_msg}
use orb_relay_messages.Actor.Run.{Session, Ending, initial, run_loop}
use orb_relay_messages.Actor.Run.Defaults.{built, default_client}
use orb_relay_messages.Actor.Run.Replies.{target}
use orb_relay_messages.Tests.Fixtures.{
  session, greeting, others, three, up, message, question, answer, empty-Unused, ack_pending,
  reply_pending, ack_pending-Waits, reply_pending-Waits,
}

-- With a limit of 3, ten rounds send ten copies.
ack_retries_example :
    follow three up 10 ack_pending (some (Msg.retry_ack 7 three.max_message_attempts))
    ≡ (10, ack_pending)
ack_retries_example = ack_retries three up ack_pending question 1 7 10 refl ack_pending-Waits.held

ask_retries_lem_example :
    follow three up 10 reply_pending
      (some (Msg.retry_ask question.target_id 7 (ask_retries three question.qos)))
    ≡ (10, reply_pending)
ask_retries_lem_example =
    ask_retries_lem three up reply_pending question 2 7 10 refl reply_pending-Waits.held

abbrev routed : Done (Unit {0})
routed = handle_msg three (payload_msg (target question 2 []) none 7 answer) up reply_pending

abbrev table : HashMap.HashMap (Text × ℕ) (SendMessage × ℕ)
table = reply_pending.pending_replies

wait_for_ack-evicts_example :
    Unused ℕ_discrete 1
      (handle_msg three
        (Msg.wait_for_ack (message QoS.at_least_once) 3 7)
        up
        ack_pending).state.pending_acks
wait_for_ack-evicts_example =
    wait_for_ack-evicts three 7 question question 1 3 up ack_pending ack_pending-Waits
      (λ e. absurd (omega arith))

abbrev early : Done (Unit {0})
early =
    (handle_msg three (payload_msg (target question 2 []) none 7 answer)
        >> handle_msg three (Msg.wait_for_reply question 2 7))
      up initial

early_reply_example :
    (early.effects
      ≡ Effect.to_client (recvd (target question 2 []) 7 answer)
        ∷ Effect.later 20 (Msg.retry_ask question.target_id 7 (ask_retries three question.qos))
        ∷ [])
    × Waits ReplyKey-discrete (question.target_id, 7) question 2 early.state.pending_replies
unfolding HashMap.get
early_reply_example =
    early_reply three 7 question 2 (target question 2 []) none answer up initial refl refl refl
      (empty-Unused ReplyKey-discrete 2)

-- A question to wait for, its answer, and the end of the stream.
abbrev asked : List Input
asked =
    record { up = up; received = Received.from_actor (Msg.wait_for_reply question 2 7) }
    ∷ record {
      up = up;
      received = Received.from_actor (payload_msg (target question 2 []) none 7 answer);
    }
    ∷ record { up = up; received = Received.from_stream StreamItem.ended }
    ∷ []

-- A refused connection, and one that opens.
abbrev both : List Session
both = session false [] ∷ record { up = up; answers = greeting true; inputs = asked } ∷ []

run_loop-Tells_example : Tells (run_loop three 1 initial both) (story three 1 nobody both)
run_loop-Tells_example = run_loop-Tells three 1 initial nobody both initial-Shows

told :
    let t = story three 1 nobody (session false [] ∷ session true [] ∷ []) in
    (t.ending ≡ Ending.running) × ((t.attempts ≡ 2) × (t.waiters.beating ≡ true))
unfolding story Amount.le expected
told = (refl, (refl, refl))

abbrev no_settings : Settings
no_settings = record {
  connection_timeout = none;
  connection_backoff = none;
  max_connection_attempts = none;
  ack_timeout = none;
  reply_timeout = none;
  heartbeat = none;
  max_message_attempts = none;
  keep_alive_interval = none;
  keep_alive_timeout = none;
}

abbrev default_opts : ClientOpts
default_opts =
    built EntityType.app (bytes "apple") (bytes "green") (bytes "https://relay") (Auth.token [])
      no_settings

-- A message and a question wait.
abbrev default_question : SendMessage
default_question = to EntityType.orb (bytes "fruit") (bytes "green") none (bytes "hello")

abbrev two_pending : State
two_pending = record ack_pending {
  pending_replies = ((bytes "fruit", 8), (default_question, 2)) ∷ [];
}

asked_default :
    HashMap.get ReplyKey-discrete (bytes "fruit", 8) two_pending.pending_replies
    ≡ some (default_question, 2)
unfolding HashMap.get
asked_default = ground arith

default_client_example :
    ((run_loop default_opts 1 two_pending others).ending ≢ Ending.failed Err.stream_ended)
    × (follow default_opts up 10 two_pending (some (Msg.retry_ack 7 Amount.infinite))
        ≡ (10, two_pending))
    × (follow default_opts up 10 two_pending (some (Msg.retry_ask (bytes "fruit") 8 (Amount.val 0)))
        ≡ (0, two_pending))
unfolding HashMap.get ℕ_discrete entity to ask_retries
default_client_example =
    default_client EntityType.app (bytes "apple") (bytes "green") (bytes "https://relay")
      (Auth.token []) no_settings EntityType.orb (bytes "fruit") (bytes "green") (bytes "hello")
      question 1 2 7 8 10 1 up two_pending others Err.stream_ended refl refl refl
      ack_pending-Waits.held asked_default
