-- ===== src/Tests/Forwarding.antt =====
-- relay-client/src/flume_receiver_stream.rs on concrete messages, with the buffer of 4 that
-- relay-client/src/actor.rs gives it.
use orb_relay_messages.Common.{ℕ, ◌≡◌, refl, List, [], ◌∷◌}
use orb_relay_messages.Forwarder.{Line, Event, steps, new}
use orb_relay_messages.Forwarder.Connections.{connections}

-- Two messages wait, a third is sent; one is read and one is in the buffer.
abbrev events : List (Event ℕ)
events =
    Event.turn
    ∷ Event.turn
    ∷ Event.read
    ∷ Event.push 3
    ∷ Event.turn
    ∷ Event.turn
    ∷ Event.cancel
    ∷ []

abbrev line : Line ℕ
line = steps 4 events (new (1 ∷ 2 ∷ []))

-- The message that was in the buffer when the connection ended is lost.
lost_with_the_connection :
    connections 4 (1 ∷ 2 ∷ []) (events ∷ (Event.turn ∷ Event.turn ∷ Event.read ∷ []) ∷ [])
    ≡ (1 ∷ 3 ∷ [], [])
unfolding connections steps new
lost_with_the_connection = refl
