-- ===== src/Tests/Confirming.antt =====
-- A client at work: its first call waits while two connections bring other things, and is answered.
use orb_relay_messages.Common.{ℕ, ◌≡◌, refl, ap, arith, none, [], ◌∷◌, All, length, ℕ_discrete}
use orb_relay_messages.Common.Bytes.{Text, bytes}
use orb_relay_messages.Common.Outcome.{ok}
use orb_relay_messages.Common.HashMap
use orb_relay_messages.Relay.{payload_into}
use orb_relay_messages.Client.{relay_payload}
use orb_relay_messages.Actor.Defs.{Msg, Effect, ReplyKey-discrete}
use orb_relay_messages.Actor.Monad.{Done}
use orb_relay_messages.Actor.Handler.{handle_msg}
use orb_relay_messages.Actor.Session.{start_heartbeat}
use orb_relay_messages.Actor.Payload.{recvd, payload_msg}
use orb_relay_messages.Actor.Run.{Report, run_loop}
use orb_relay_messages.Actor.Run.Acks
use orb_relay_messages.Actor.Run.Amortized.{total}
use orb_relay_messages.Actor.Run.Notified.{acks_in, replies_in}
use orb_relay_messages.Actor.Run.Replies
use orb_relay_messages.Actor.Run.Replies.{target}
use orb_relay_messages.Api
use orb_relay_messages.System.{Call, System, IsPossible, issued, acts, to_serving, Step, Reach}
use orb_relay_messages.System.Once.{is_tx}
use orb_relay_messages.System.Confirmed.{send_confirmed, question_answered}
use orb_relay_messages.Tests.Opened
use orb_relay_messages.Tests.Opened.{opened, opened-Reach, alive}
use orb_relay_messages.Tests.Fixtures.{three, up, question, ack_of, answer, others}

program : Unit {0}
unfolding Opened.program issued handle_msg Api.connect Api.send Api.ask start_heartbeat
    relay_payload
program = tt

abbrev first : Msg
first = Msg.send (payload_into (relay_payload three question 0))

-- The actor has sent the payload of the call, and comes to its wait.
abbrev ready : Call → Msg → System
ready c wait = acts three 1 (to_serving 1) (handle_msg three first) up (record opened {
  client = (issued opened.client 0 c).1;
  next = 1;
  calls = [] ∷ [];
  channel = wait ∷ [];
})

ready-Reach :
    (c : Call) (wait : Msg)
    → IsPossible opened c
    → (issued opened.client 0 c).0 ≡ first ∷ wait ∷ []
    → Reach three (ready c wait)
unfolding program
ready-Reach c wait can e =
    let r2 = Reach.next_step opened-Reach (Step.call c can) in
    let r3 = Reach.next_step r2 (Step.put [] [] first (wait ∷ []) (ap (λ x. x ∷ []) e) tt) in
    let r4 = Reach.next_step r3 (Step.put [] [] wait [] refl tt) in
    Reach.next_step r4 (Step.take first (wait ∷ []) 1 up refl refl alive)

abbrev sending : System
sending = ready (Call.send question) (Msg.wait_for_ack question 0 0)

abbrev ack_run : Report
ack_run =
    run_loop three 1 (handle_msg three (Msg.wait_for_ack question 0 0) up sending.state).state
      others

abbrev acked : Done (Unit {0})
acked = handle_msg three (Msg.relay_response (ack_of 0)) up ack_run.state

sending-Reach : Reach three sending
unfolding program
sending-Reach = ready-Reach (Call.send question) (Msg.wait_for_ack question 0 0) tt refl

sending_channel : sending.channel ≡ Msg.wait_for_ack question 0 0 ∷ []
unfolding program
sending_channel = refl

send_confirmed_example :
    (total (acks_in (is_tx 0)) sending.effects ≡ 0)
    × All (Acks.Silent 0 question 0) ack_run.effects
    × (acked.effects ≡ Effect.to_ack 0 ∷ [])
    × (acked.result ≡ ok tt)
    × (HashMap.get ℕ_discrete 0 acked.state.pending_acks ≡ none)
send_confirmed_example =
    send_confirmed three sending question 0 0 [] up up 1 others none sending-Reach sending_channel
      ((λ e. absurd (omega arith), (tt, tt)), ((tt, tt), tt)) refl

abbrev asking : System
asking = ready (Call.ask question) (Msg.wait_for_reply question 0 0)

abbrev reply_run : Report
reply_run =
    run_loop three 1 (handle_msg three (Msg.wait_for_reply question 0 0) up asking.state).state
      others

abbrev replied : Done (Unit {0})
replied =
    handle_msg three (payload_msg (target question 2 (bytes "green")) none 0 answer) up
      reply_run.state

asking-Reach : Reach three asking
unfolding program
asking-Reach = ready-Reach (Call.ask question) (Msg.wait_for_reply question 0 0) tt refl

asking_channel : asking.channel ≡ Msg.wait_for_reply question 0 0 ∷ []
unfolding program
asking_channel = refl

question_answered_example :
    (total (replies_in (is_tx 0)) asking.effects ≡ 0)
    × All (Replies.Silent question.target_id 0 question 0) reply_run.effects
    × (replied.effects
        ≡ Effect.to_reply 0 (recvd (target question 2 (bytes "green")) 0 answer) ∷ [])
    × (replied.result ≡ ok tt)
    × (HashMap.get ReplyKey-discrete (question.target_id, 0) replied.state.pending_replies ≡ none)
question_answered_example =
    question_answered three asking question 0 0 [] up up 1 others 2 (bytes "green") none answer
      asking-Reach asking_channel ((tt, (tt, tt)), ((other_id, tt), tt)) refl
  where
    other_id : ◌≡◌ {A = Text × ℕ} (bytes "somebody", 7) (bytes "fruit", 0) → ⊥
    other_id e = absurd (omega (arith, ap (λ (p : Text × ℕ). length p.0) e))
