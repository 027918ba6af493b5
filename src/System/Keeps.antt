-- ===== src/System/Keeps.antt =====
-- The rules of Actor/Keeps for the greeting of a connection.
use orb_relay_messages.Common.{true, false, List}
use orb_relay_messages.Common.Bytes.{Text}
use orb_relay_messages.Relay.{AuthMethod, ResponseMsg, connect_request_into}
use orb_relay_messages.Client.{ClientOpts}
use orb_relay_messages.Actor.Defs.{State, Dial, Msg, Effect}
use orb_relay_messages.Actor.Session.{StreamItem, connect_request, start_heartbeat}
use orb_relay_messages.Actor.Keeps.{Keeps, bind-Keeps, pure-Keeps, if-Keeps, greet_item-Keeps}
use orb_relay_messages.System.{greets}

module _ {P : State → Type 0} {Q : Effect → Type 0} (opts : ClientOpts)
    (dial : (d : Dial) → Q (Effect.dial d))
    (opened : (h : List (Text × Text)) → Q (Effect.open_stream h))
    (introduce : (a : AuthMethod)
      → Q (Effect.to_tonic (connect_request_into (connect_request opts a))))
    (hand_on : (r : ResponseMsg) → Q (Effect.to_actor (Msg.relay_response r)))
    (beat : Keeps P Q (start_heartbeat opts)) where
  pub greets-Keeps : (i : StreamItem) → Keeps P Q (greets opts i)
  unfolding greets
  greets-Keeps i =
      bind-Keeps (greet_item-Keeps opts dial opened introduce hand_on i)
        λ more. if-Keeps more (pure-Keeps true) (bind-Keeps beat (λ _. pure-Keeps false))
