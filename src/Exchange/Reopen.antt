-- ===== src/Exchange/Reopen.antt =====
-- What the server gets first on a new connection: `connect` of relay-client/src/actor.rs puts its
-- `ConnectRequest` on the channel that still holds what the connection before has left.
use orb_relay_messages.Common.{◌≡◌, refl, ap, ◌∙◌, true, none, some, List, [], ◌∷◌, ◌++◌, All}
use orb_relay_messages.Relay.{
  AuthMethod, ConnectResponse, ResponseMsg, RelayConnectRequest, connect_request_into,
}
use orb_relay_messages.Client.{ClientOpts}
use orb_relay_messages.Actor.Defs.{State, Channel}
use orb_relay_messages.Actor.Monad.{Up}
use orb_relay_messages.Actor.Session.{Awaited, StreamItem, Answers, connect, connect_request}
use orb_relay_messages.Actor.Session.Greeting.{
  credentials, IsEarly, greeting_after, handed_on, connect_opens,
}
use orb_relay_messages.Exchange.{tonic_queue, forwarded}
use orb_relay_messages.Exchange.Legs.{forwarded_all}

tonic_queue-handed_on : (ms : List ResponseMsg) → tonic_queue (handed_on ms) ≡ []
tonic_queue-handed_on [] = refl
tonic_queue-handed_on (m ∷ ms) = tonic_queue-handed_on ms

-- On a connection that opens and is given time, the server gets every request that was left on the
-- channel of the client before it gets the `ConnectRequest`, which names and authenticates the
-- client.
pub connect_request_last :
    (up : Up) (s : State) (opts : ClientOpts) (net : Answers) (method : AuthMethod)
    (ms : List ResponseMsg) (r : ConnectResponse) (rest : List StreamItem)
    (left : List RelayConnectRequest)
    → net.endpoint_error ≡ none
    → net.channel ≡ Awaited.ready
    → net.is_ascii ≡ true
    → net.stream ≡ Awaited.ready
    → net.items ≡ greeting_after ms r rest
    → credentials opts.auth net.watched ≡ some method
    → All IsEarly ms
    → up Channel.actor ≡ true
    → up Channel.tonic ≡ true
    → forwarded (left ++ tonic_queue (connect opts net up s).effects)
      ≡ left ++ connect_request_into (connect_request opts method) ∷ []
connect_request_last up s opts net method ms r rest left e c a st it cr h u t =
    forwarded_all _
    ∙ ap (λ d. left ++ tonic_queue d.effects)
        (connect_opens up s opts net method ms r rest e c a st it cr h u t)
    ∙ ap (λ q. left ++ connect_request_into (connect_request opts method) ∷ q)
        (tonic_queue-handed_on ms)
