-- ===== src/Actor/Session.antt =====
-- `connect` and `main_loop` of relay-client/src/actor.rs. What tonic, http, tokio and the server
-- answer during one connection is given: an `Answers` for `connect`, and the messages that the
-- `select!` of the loop receives, each with the channels that have a receiver at that time.
pub mod Greeting
use orb_relay_messages.Common.{Bool, true, false, if◌then◌else◌, Option, none, some, List, [], ◌∷◌}
use orb_relay_messages.Common.Bytes.{Text, bytes}
use orb_relay_messages.Relay.{
  EntityType, as_i32, AuthMethod, ConnectRequest, ResponseMsg, connect_request_into,
}
use orb_relay_messages.Client.{Auth, Err, ClientOpts}
use orb_relay_messages.Actor.Defs.{Dial, Msg, Channel, Effect}
use orb_relay_messages.Actor.Monad.{
  Up, Act, ◌>>=◌, ◌>>◌, pure, raise, todo, emit, gets, modify, send_or, later,
}
use orb_relay_messages.Actor.Handler.{handle_msg}

-- An awaited call of `connect`: it succeeds, fails, or is cut off by the connection timeout.
pub data Awaited : Type 0 where
  ready : Awaited
  failed : Err → Awaited
  elapsed : Awaited

-- `response_stream.next()`.
pub data StreamItem : Type 0 where
  message : Option ResponseMsg → StreamItem
  status : Text → StreamItem
  ended : StreamItem

pub record Answers : Type 0 where
  -- `Endpoint::from_shared` and `tls_config`: `none` if both succeed
  pub endpoint_error : Option Err
  -- `endpoint.connect()`
  pub channel : Awaited
  -- `MetadataValue::try_from(client_id)`
  pub is_ascii : Bool
  -- what the token's `watch` channel holds
  pub watched : Text
  -- `relay_client.relay_connect(..)`
  pub stream : Awaited
  -- the stream's items before the timeout
  pub items : List StreamItem

abbrev pub timed_out : Err
timed_out = Err.other "Timed out trying to establish a connection"

abbrev pub await : Awaited → Act (Unit {0})
await Awaited.ready = pure tt
await (Awaited.failed e) = raise e
await Awaited.elapsed = raise timed_out

abbrev pub fail_if : Option Err → Act (Unit {0})
fail_if none = pure tt
fail_if (some e) = raise e

unfoldable pub auth_method : Auth → Text → Act AuthMethod
auth_method (Auth.token t) watched = pure (AuthMethod.token t)
auth_method Auth.token_receiver watched = pure (AuthMethod.token watched)
auth_method Auth.zkp watched = todo

-- The `ConnectRequest` that opens a stream.
unfoldable pub connect_request : ClientOpts → AuthMethod → ConnectRequest
unfolding as_i32
connect_request opts method = record {
  client_id = some (record {
    id = opts.client_id;
    entity_type = as_i32 opts.entity_type;
    namespace = opts.namespace;
  });
  auth_method = some method;
}

abbrev pub bad_client_id : Err
bad_client_id = Err.other "Failed to convert client_id to metadata value (must be valid ASCII)"

abbrev pub dial_settings : ClientOpts → Dial
dial_settings opts = record {
  domain = opts.endpoint;
  keep_alive_while_idle = true;
  keep_alive_interval = opts.keep_alive_interval;
  keep_alive_timeout = opts.keep_alive_timeout;
}

unfoldable pub device_type : EntityType → Text
device_type EntityType.orb = bytes "orb"
device_type EntityType.app = bytes "app"
device_type EntityType.service = bytes "service"
device_type EntityType.unspecified = bytes "unspecified"

abbrev pub x_client_id_header : Text
x_client_id_header = bytes "x-client-id"

abbrev pub x_device_type_header : Text
x_device_type_header = bytes "x-device-type"

-- What the interceptor puts on the request.
unfoldable pub metadata : ClientOpts → List (Text × Text)
unfolding device_type
metadata opts =
    (x_client_id_header, opts.client_id) ∷ (x_device_type_header, device_type opts.entity_type) ∷ []

-- One item of the `while let` loop of `connect`: true to go on, false for its `break`.
unfoldable pub greet : ResponseMsg → Act Bool
greet (ResponseMsg.connect_response r) =
    if r.success then pure false else raise (Err.other "Failed to establish connection.")
greet (ResponseMsg.ack a) = do
  send_or Channel.actor (Effect.to_actor (Msg.relay_response (ResponseMsg.ack a)))
      "relay_actor_tx receivers unexpectedly dropped"
  pure true
greet (ResponseMsg.payload p) = do
  send_or Channel.actor (Effect.to_actor (Msg.relay_response (ResponseMsg.payload p)))
      "relay_actor_tx receivers unexpectedly dropped"
  pure true

-- What the loop does with what the stream gives it; it ends with the stream, too.
unfoldable pub greet_item : StreamItem → Act Bool
unfolding greet
greet_item StreamItem.ended = pure false
greet_item (StreamItem.status s) = raise (Err.tonic s)
greet_item (StreamItem.message none) = pure true
greet_item (StreamItem.message (some m)) = greet m

-- The loop. A stream that says nothing more runs into the timeout.
unfoldable pub await_greeting : List StreamItem → Act (Unit {0})
unfolding greet_item
await_greeting [] = raise timed_out
await_greeting (i ∷ rest) =
    let again = await_greeting rest in do more ← greet_item i; if more then again else pure tt

-- `connect` up to its loop.
unfoldable pub open_stream : ClientOpts → Answers → Act (Unit {0})
unfolding auth_method connect_request metadata
open_stream opts net = do
  fail_if net.endpoint_error
  emit (Effect.dial (dial_settings opts))
  await net.channel
  if net.is_ascii then pure tt else raise bad_client_id
  method ← auth_method opts.auth net.watched
  send_or Channel.tonic (Effect.to_tonic (connect_request_into (connect_request opts method)))
      "Failed to send RelayConnectRequest"
  emit (Effect.open_stream (metadata opts))
  await net.stream

unfoldable pub connect : ClientOpts → Answers → Act (Unit {0})
unfolding open_stream await_greeting
connect opts net = do open_stream opts net; await_greeting net.items

-- What one round of the `select!` receives.
pub data Received : Type 0 where
  from_actor : Msg → Received
  actor_closed : Received
  from_stream : StreamItem → Received

pub record Input : Type 0 where
  pub up : Up
  pub received : Received

unfoldable pub receive : ClientOpts → Received → Act (Unit {0})
unfolding handle_msg
receive opts (Received.from_actor m) = handle_msg opts m
receive opts Received.actor_closed = raise (Err.other "relay_actor_tx seemingly dropped")
receive opts (Received.from_stream StreamItem.ended) = raise Err.stream_ended
receive opts (Received.from_stream (StreamItem.status s)) = raise (Err.tonic s)
receive opts (Received.from_stream (StreamItem.message none)) = pure tt
receive opts (Received.from_stream (StreamItem.message (some m))) =
    handle_msg opts (Msg.relay_response m)

-- The loop of `main_loop` over what it receives. It never returns `Ok`: `ok` here means that it
-- waits for more.
unfoldable pub serve : ClientOpts → List Input → Act (Unit {0})
unfolding receive
serve opts [] = pure tt
serve opts (i ∷ is) = do (λ _. receive opts i.received i.up); serve opts is

unfoldable pub start_heartbeat : ClientOpts → Act (Unit {0})
start_heartbeat opts = do
  started ← gets (λ s. s.heartbeat_started)
  if started then pure tt else do
    modify (λ s. record s { heartbeat_started = true })
    later opts.heartbeat Msg.heartbeat

unfoldable pub main_loop : ClientOpts → Answers → List Input → Act (Unit {0})
unfolding connect start_heartbeat serve
main_loop opts net inputs = do connect opts net; start_heartbeat opts; serve opts inputs
