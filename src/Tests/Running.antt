-- ===== src/Tests/Running.antt =====
-- A client at work: it connects, gets a message, replies to it with `QoS::AtLeastOnce`, and the
-- server acknowledges the reply.
use orb_relay_messages.Common.{
  ◌+◌, ◌≤◌, ◌≡◌, refl, arith, none, some, List, [], ◌∷◌, ◌++◌, All, mem-cons_self, mem-cons_of_mem,
  ℕ_discrete,
}
use orb_relay_messages.Common.Bytes.{bytes}
use orb_relay_messages.Relay.{EntityType, Entity, ResponseMsg, payload_into}
use orb_relay_messages.Client.{QoS}
use orb_relay_messages.Actor.Defs.{Msg}
use orb_relay_messages.Actor.Handler.{handle_msg}
use orb_relay_messages.Actor.Session.{StreamItem, Received, start_heartbeat, receive}
use orb_relay_messages.Actor.Run.{after_error}
use orb_relay_messages.Actor.Run.Amortized.{total}
use orb_relay_messages.Actor.Run.Heartbeats.{beats_of, to_start}
use orb_relay_messages.Actor.Run.Notified.{acks_in, waiting_acks, replies_in, waiting_replies}
use orb_relay_messages.Common.HashMap
use orb_relay_messages.Api
use orb_relay_messages.Api.{RecvMessage, reply_payload, reply_message}
use orb_relay_messages.System.{Call, System, WasReceived, issued, acts, to_serving, Step, Reach}
use orb_relay_messages.System.Measured.{charges, charges_all}
use orb_relay_messages.System.Described.{IsTold, Reach-IsTold}
use orb_relay_messages.Actor.Run.Pauses.{pauses}
use orb_relay_messages.Actor.Run.WellFormed.{IsWellFormed}
use orb_relay_messages.System.Paced.{Paces, attempts_paced}
use orb_relay_messages.System.Tables.{tables-IsWellFormed}
use orb_relay_messages.System.Heartbeats.{one_heartbeat}
use orb_relay_messages.System.Once.{is_tx, once, answered_once}
use orb_relay_messages.System.Remembered.{
  waits_for_ack, ack_timers, waits_for_reply, reply_timers, nobody_forgotten,
}
use orb_relay_messages.System.Sources.{SpeaksOwn, speaks_own}
use orb_relay_messages.Tests.Opened
use orb_relay_messages.Tests.Opened.{opened, opened-Reach, alive}
use orb_relay_messages.Tests.Fixtures.{three, up, ack_of, answer}

abbrev somebody : Entity
somebody = record { id = bytes "somebody"; entity_type = 2; namespace = bytes "green" }

abbrev pub asked : StreamItem
asked = StreamItem.message (
    some (
      ResponseMsg.payload
        (record { src = some somebody; dst = none; seq = 9; payload = some answer })))

abbrev acked : StreamItem
acked = StreamItem.message (some (ack_of 9))

abbrev pub gets : StreamItem → System → System
gets i s = acts three 1 (to_serving 1) (receive three (Received.from_stream i)) up s

abbrev pub received : RecvMessage
received = record { from = somebody; payload = answer.value; client = opened.client; seq = 9 }

abbrev pub replies : Call
replies = Call.reply received (bytes "hi") QoS.at_least_once

abbrev pub the_reply : Msg
the_reply = Msg.send (payload_into (reply_payload received (bytes "hi")))

abbrev pub the_wait : Msg
the_wait =
    Msg.wait_for_ack (reply_message received (bytes "hi") QoS.at_least_once EntityType.orb) 0 9

abbrev calls : Call → System → System
calls c s = record s {
  client = (issued s.client s.next c).1;
  next = s.next + 1;
  calls = s.calls ++ (issued s.client s.next c).0 ∷ [];
}

abbrev pub replied : System
replied = calls replies (gets asked opened)

unfoldable pub program : Unit {0}
unfolding Opened.program issued handle_msg receive Api.connect Api.reply ℕ_discrete HashMap.get
    HashMap.remove HashMap.insert start_heartbeat after_error reply_payload reply_message
program = tt

abbrev pub put_first : System
put_first = record replied {
  calls = (the_wait ∷ []) ∷ [];
  channel = replied.channel ++ the_reply ∷ [];
}

abbrev pub put_second : System
put_second = record put_first { calls = [] ∷ []; channel = put_first.channel ++ the_wait ∷ [] }

abbrev pub takes : Msg → List Msg → System → System
takes m ms s = acts three 1 (to_serving 1) (handle_msg three m) up (record s { channel = ms })

abbrev pub sent : System
sent = takes the_reply (the_wait ∷ []) put_second

abbrev waiting : System
waiting = takes the_wait [] sent

abbrev confirmed : System
confirmed = gets acked waiting

was_received : WasReceived (gets asked opened) received
unfolding program
was_received = record {
  same_client = refl;
  delivered =
      mem-cons_of_mem _ (mem-cons_of_mem _ (mem-cons_of_mem _ (mem-cons_of_mem _ mem-cons_self)));
}

reached : Reach three waiting
unfolding program
reached =
    let r2 : Reach three (gets asked opened) =
      Reach.next_step opened-Reach (Step.item asked 1 up refl refl alive) in
    let r3 : Reach three replied = Reach.next_step r2 (Step.call replies was_received) in
    let r4 : Reach three put_first =
      Reach.next_step r3 (Step.put [] [] the_reply (the_wait ∷ []) refl tt) in
    let r5 : Reach three put_second = Reach.next_step r4 (Step.put [] [] the_wait [] refl tt) in
    let r6 : Reach three sent =
      Reach.next_step r5 (Step.take the_reply (the_wait ∷ []) 1 up refl refl alive) in
    Reach.next_step r6 (Step.take the_wait [] 1 up refl refl alive)

confirmed_reached : Reach three confirmed
unfolding program
confirmed_reached = Reach.next_step reached (Step.item acked 1 up refl refl alive)

confirmed_once : total (acks_in (is_tx 0)) confirmed.effects ≡ 1
unfolding program
confirmed_once = refl

Reach-IsTold_example : IsTold three confirmed.phase confirmed.state confirmed.effects
Reach-IsTold_example = Reach-IsTold three confirmed confirmed_reached

tables-IsWellFormed_example : IsWellFormed waiting.state
tables-IsWellFormed_example = tables-IsWellFormed three waiting reached

attempts_paced_example : Paces 3 confirmed.phase (pauses confirmed.effects)
attempts_paced_example =
    attempts_paced three 3 refl (omega arith) (omega arith) confirmed confirmed_reached

-- The reply waits for its ack; then it has it.
one_heartbeat_example :
    to_start waiting.state
      + charges beats_of waiting.timers
      + charges beats_of waiting.channel
      + charges_all beats_of waiting.calls
    ≡ 1
one_heartbeat_example = one_heartbeat three waiting reached

answered_once_example :
    (total (acks_in (is_tx 0)) confirmed.effects + waiting_acks (is_tx 0) confirmed.state
      ≤ once 0 confirmed.next)
    × (total (replies_in (is_tx 0)) confirmed.effects + waiting_replies (is_tx 0) confirmed.state
        ≤ once 0 confirmed.next)
answered_once_example = answered_once 0 three confirmed confirmed_reached

speaks_own_example : All (SpeaksOwn three) confirmed.effects
speaks_own_example = speaks_own three confirmed confirmed_reached

reply_waits : waits_for_ack 9 waiting.state ≡ 1
unfolding program
reply_waits = refl

nobody_forgotten_example :
    (waits_for_ack 9 waiting.state
      ≤ charges (ack_timers 9) waiting.timers + charges (ack_timers 9) waiting.channel)
    × (waits_for_reply (somebody.id, 9) waiting.state
        ≤ charges (reply_timers (somebody.id, 9)) waiting.timers
          + charges (reply_timers (somebody.id, 9)) waiting.channel)
nobody_forgotten_example = nobody_forgotten three (omega arith) waiting reached 9 (somebody.id, 9)
