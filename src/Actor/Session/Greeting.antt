-- ===== src/Actor/Session/Greeting.antt =====
-- `connect` of relay-client/src/actor.rs up to the server's `ConnectResponse`.
use orb_relay_messages.Common.{
  ◌≡◌, ap, true, if◌then◌else◌, Option, none, some, List, [], ◌∷◌, All, arith,
}
use orb_relay_messages.Common.Bytes.{Text}
use orb_relay_messages.Common.Outcome.{Outcome, ok, err}
use orb_relay_messages.Relay.{AuthMethod, ConnectResponse, ResponseMsg, connect_request_into}
use orb_relay_messages.Client.{Auth, Err, ClientOpts}
use orb_relay_messages.Actor.Defs.{State, Msg, Channel, Effect}
use orb_relay_messages.Actor.Monad.{Up, prefix, pure}
use orb_relay_messages.Actor.Session.{
  Awaited, StreamItem, Answers, auth_method, connect_request, dial_settings, metadata, greet,
  await_greeting, connect,
}

-- What the client has to show: its token, or what the token's `watch` channel holds.
abbrev pub credentials : Auth → Text → Option AuthMethod
credentials (Auth.token t) watched = some (AuthMethod.token t)
credentials Auth.token_receiver watched = some (AuthMethod.token watched)
credentials Auth.zkp watched = none

abbrev pub IsEarly : ResponseMsg → Type 0
IsEarly (ResponseMsg.connect_response r) = ⊥
IsEarly _ = Unit {0}

-- Responses ahead of the greeting, the greeting, and what comes behind it.
abbrev pub greeting_after : List ResponseMsg → ConnectResponse → List StreamItem → List StreamItem
greeting_after [] r rest = StreamItem.message (some (ResponseMsg.connect_response r)) ∷ rest
greeting_after (m ∷ ms) r rest = StreamItem.message (some m) ∷ greeting_after ms r rest

abbrev pub handed_on : List ResponseMsg → List Effect
handed_on [] = []
handed_on (m ∷ ms) = Effect.to_actor (Msg.relay_response m) ∷ handed_on ms

abbrev pub verdict : ConnectResponse → Outcome Err (Unit {0})
verdict r = if r.success then ok tt else err (Err.other "Failed to establish connection.")

shown :
    (a : Auth) (watched : Text) (m : AuthMethod)
    → credentials a watched ≡ some m
    → auth_method a watched ≡ pure m
unfolding auth_method
shown (Auth.token t) watched m e = ap pure (cc)
shown Auth.token_receiver watched m e = ap pure (cc)
shown Auth.zkp watched m e = cc

module _ (up : Up) (s : State) where
  greeted :
      (ms : List ResponseMsg) (r : ConnectResponse) (rest : List StreamItem)
      → All IsEarly ms
      → up Channel.actor ≡ true
      → await_greeting (greeting_after ms r rest) up s
        ≡ record { state = s; effects = handed_on ms; result = verdict r }
  unfolding await_greeting greet
  greeted [] r rest h u = ground arith
  greeted (ResponseMsg.ack a ∷ ms) r rest h u = rw u (
      ap (prefix (Effect.to_actor (Msg.relay_response (ResponseMsg.ack a)) ∷ []))
        (greeted ms r rest h.1 u))
  greeted (ResponseMsg.payload p ∷ ms) r rest h u = rw u (
      ap (prefix (Effect.to_actor (Msg.relay_response (ResponseMsg.payload p)) ∷ []))
        (greeted ms r rest h.1 u))
  greeted (ResponseMsg.connect_response c ∷ ms) r rest h u = elim h.0 [ ]

  -- A connection opens in one order: the endpoint is dialled, the client introduces itself with its
  -- address and credentials, and the stream is opened under its id and device type. Acks and
  -- payloads that the server sends ahead of its greeting are all handed on to the actor, in order.
  -- Then `connect` succeeds or fails as the greeting says, and the state is as before.
  pub connect_opens :
      (opts : ClientOpts) (net : Answers) (method : AuthMethod) (ms : List ResponseMsg)
      (r : ConnectResponse) (rest : List StreamItem)
      → net.endpoint_error ≡ none
      → net.channel ≡ Awaited.ready
      → net.is_ascii ≡ true
      → net.stream ≡ Awaited.ready
      → net.items ≡ greeting_after ms r rest
      → credentials opts.auth net.watched ≡ some method
      → All IsEarly ms
      → up Channel.actor ≡ true
      → up Channel.tonic ≡ true
      → connect opts net up s ≡ record {
        state = s;
        effects =
            Effect.dial (dial_settings opts)
            ∷ Effect.to_tonic (connect_request_into (connect_request opts method))
            ∷ Effect.open_stream (metadata opts)
            ∷ handed_on ms;
        result = verdict r;
      }
  unfolding connect
  connect_opens opts net method ms r rest e c a st it cr h u t =
      rw (e, c, a, shown opts.auth net.watched method cr, t, st, it)
        (ap
          (prefix (
            Effect.dial (dial_settings opts)
            ∷ Effect.to_tonic (connect_request_into (connect_request opts method))
            ∷ Effect.open_stream (metadata opts)
            ∷ []))
          (greeted ms r rest h u))
