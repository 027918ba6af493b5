-- ===== src/Tests/Opened.antt =====
-- A client at work whose stream is open and greeted.
use orb_relay_messages.Common.{[], refl, true, some}
use orb_relay_messages.Relay.{ResponseMsg}
use orb_relay_messages.Actor.Session.{StreamItem, open_stream}
use orb_relay_messages.System.{
  System, IsAlive, acts, greets, greeted, to_greeting, resumes, Step, begin, Reach,
}
use orb_relay_messages.Tests.Fixtures.{three, up, greeting}

unfoldable pub program : Unit {0}
unfolding resumes open_stream greets
program = tt

abbrev pub dialled : System
dialled = acts three 1 (to_greeting 1) (open_stream three (greeting true)) up (begin three)

abbrev welcome : StreamItem
welcome =
    StreamItem.message
      (some (ResponseMsg.connect_response (record { client_id = []; success = true; error = [] })))

abbrev pub opened : System
opened = acts three 1 (greeted 1) (greets three welcome) up dialled

pub alive : IsAlive up
alive = record { tonic = refl; actor = refl }

pub opened-Reach : Reach three opened
unfolding program
opened-Reach =
    let r : Reach three dialled =
      Reach.next_step Reach.start (Step.dial (greeting true) 1 up refl alive) in
    Reach.next_step r (Step.greet welcome 1 up refl alive)
