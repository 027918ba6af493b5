-- ===== src/Tests/Stopping.antt =====
-- A client at work that replies and stops.
use orb_relay_messages.Common.{ℕ, ◌+◌, ◌≤◌, ◌≡◌, refl, [], ◌∷◌, ◌++◌}
use orb_relay_messages.Relay.{RelayConnectRequest}
use orb_relay_messages.Actor.Defs.{Msg}
use orb_relay_messages.Actor.Run.{Ending}
use orb_relay_messages.System.{IsRunning, Phase, System, issued, Step}
use orb_relay_messages.System.Measured.{charges}
use orb_relay_messages.System.Priority.{Steps, StopComes}
use orb_relay_messages.System.Priority.Stops.{stop_comes}
use orb_relay_messages.System.Sent.{to_send, in_hand, kept_while_running}
use orb_relay_messages.Tests.Opened.{opened, alive}
use orb_relay_messages.Tests.Fixtures.{three, up}
use orb_relay_messages.Tests.Running
use orb_relay_messages.Tests.Running.{
  replied, gets, the_reply, the_wait, put_first, put_second, sent, takes, replies, asked,
}

-- Every request counts once.
abbrev each : RelayConnectRequest → ℕ
each r = 1

to_sent : Steps three replied sent
unfolding Running.program
to_sent =
    let p1 : Steps three replied put_first =
      Steps.and_then Steps.none_yet (Step.put [] [] the_reply (the_wait ∷ []) refl tt) in
    let p2 : Steps three replied put_second =
      Steps.and_then p1 (Step.put [] [] the_wait [] refl tt) in
    Steps.and_then p2 (Step.take the_reply (the_wait ∷ []) 1 up refl refl alive)

sent-IsRunning : IsRunning sent.phase
unfolding Running.program
sent-IsRunning = tt

kept_while_running_example :
    in_hand each (gets asked opened)
      + charges
          (to_send each)
          (issued (gets asked opened).client (gets asked opened).next replies).0
    ≤ in_hand each sent
kept_while_running_example =
    kept_while_running each three (gets asked opened) sent replies sent-IsRunning to_sent

-- A request to stop behind a reply.
abbrev stopping : System
stopping = record put_second { channel = put_second.channel ++ Msg.stop ∷ [] }

abbrev now_stopped : System
now_stopped =
    takes Msg.stop []
      (takes the_wait (Msg.stop ∷ []) (takes the_reply (the_wait ∷ Msg.stop ∷ []) stopping))

to_stop : Steps three stopping now_stopped
unfolding Running.program
to_stop =
    let t1 : Steps three stopping (takes the_reply (the_wait ∷ Msg.stop ∷ []) stopping) =
      Steps.and_then Steps.none_yet
        (Step.take the_reply (the_wait ∷ Msg.stop ∷ []) 1 up refl refl alive) in
    let t2 : Steps three stopping
        (takes the_wait (Msg.stop ∷ []) (takes the_reply (the_wait ∷ Msg.stop ∷ []) stopping)) =
      Steps.and_then t1 (Step.take the_wait (Msg.stop ∷ []) 1 up refl refl alive) in
    Steps.and_then t2 (Step.take Msg.stop [] 1 up refl refl alive)

stop_phase : stopping.phase ≡ Phase.serving 1
unfolding Running.program
stop_phase = refl

stop_channel : stopping.channel ≡ (the_reply ∷ the_wait ∷ []) ++ Msg.stop ∷ []
unfolding Running.program
stop_channel = refl

-- It has stopped.
now_ended : now_stopped.phase ≡ Phase.ended Ending.stopped
unfolding Running.program
now_ended = refl

stop_comes_example : StopComes three up 1 stopping (the_reply ∷ the_wait ∷ []) now_stopped
stop_comes_example =
    stop_comes three up 1 stopping (the_reply ∷ the_wait ∷ []) [] now_stopped stop_phase
      stop_channel to_stop
