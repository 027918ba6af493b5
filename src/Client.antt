-- ===== src/Client.antt =====
-- relay-client/src/lib.rs: the data of the client. Durations are milliseconds; a channel end is the
-- number of its channel.
use orb_relay_messages.Common.{ℕ, ◌*◌, String, Option, none, some, []}
use orb_relay_messages.Common.Bytes.{Bytes, Text}
use orb_relay_messages.Relay.{EntityType, as_i32, Entity, RelayPayload}
use orb_relay_messages.Amount.{Amount}

abbrev pub ClientId : Type 0
ClientId = Text

abbrev pub Seq : Type 0
Seq = ℕ

abbrev pub Duration : Type 0
Duration = ℕ

-- A `flume::Sender` of an ack or reply channel.
abbrev pub Sender : Type 0
Sender = ℕ

pub data QoS : Type 0 where
  at_most_once at_least_once : QoS

pub record SendMessage : Type 0 where
  pub target_type : EntityType
  pub payload_data : Bytes
  pub target_id : Text
  pub target_namespace : Text
  pub qos : QoS

-- The receiver of a token is a `watch` channel: what it holds is read when a connection is made.
pub data Auth : Type 0 where
  token : Text → Auth
  token_receiver : Auth
  zkp : Auth

pub record RecvdRelayPayload : Type 0 where
  pub from : Entity
  pub payload : Bytes
  pub seq : Seq

-- The errors of the crates that the client calls are kept as their texts.
pub data Err : Type 0 where
  stop_request : Err
  reconnect_request : Err
  stream_ended : Err
  channel : Err
  transport : Text → Err
  tonic : Text → Err
  other : String → Err

pub record ClientOpts : Type 0 where
  pub entity_type : EntityType
  pub client_id : Text
  pub namespace : Text
  pub endpoint : Text
  pub auth : Auth
  pub connection_timeout : Duration
  pub connection_backoff : Duration
  pub max_connection_attempts : Amount
  pub ack_timeout : Duration
  pub reply_timeout : Duration
  pub heartbeat : Duration
  pub max_message_attempts : Amount
  pub keep_alive_interval : Duration
  pub keep_alive_timeout : Duration

-- What the optional setters of the builder of `ClientOpts` were given: none where one was not called.
pub record Settings : Type 0 where
  pub connection_timeout : Option Duration
  pub connection_backoff : Option Duration
  pub max_connection_attempts : Option Amount
  pub ack_timeout : Option Duration
  pub reply_timeout : Option Duration
  pub heartbeat : Option Duration
  pub max_message_attempts : Option Amount
  pub keep_alive_interval : Option Duration
  pub keep_alive_timeout : Option Duration

abbrev or_default : {A : Type 0} → Option A → A → A
or_default none a = a
or_default (some x) a = x

abbrev from_secs : ℕ → Duration
from_secs n = n * 1000

-- `ClientOpts::entity(..)` up to `build()`.
unfoldable pub entity : EntityType → Text → Text → Text → Auth → Settings → ClientOpts
entity entity_type id namespace endpoint auth set = record {
  entity_type = entity_type;
  client_id = id;
  namespace = namespace;
  endpoint = endpoint;
  auth = auth;
  connection_timeout = or_default set.connection_timeout (from_secs 20);
  connection_backoff = or_default set.connection_backoff (from_secs 20);
  max_connection_attempts = or_default set.max_connection_attempts Amount.infinite;
  ack_timeout = or_default set.ack_timeout (from_secs 20);
  reply_timeout = or_default set.reply_timeout (from_secs 20);
  heartbeat = or_default set.heartbeat (from_secs 30);
  max_message_attempts = or_default set.max_message_attempts Amount.infinite;
  keep_alive_interval = or_default set.keep_alive_interval (from_secs 30);
  keep_alive_timeout = or_default set.keep_alive_timeout (from_secs 10);
}

-- `SendMessage::to(..)` up to `payload(..)`, with what `qos` was given.
unfoldable pub to : EntityType → Text → Text → Option QoS → Bytes → SendMessage
to target_type id namespace qos data_bytes = record {
  target_type = target_type;
  payload_data = data_bytes;
  target_id = id;
  target_namespace = namespace;
  qos = or_default qos QoS.at_most_once;
}

-- `relay_payload`: from this client to the target of the message.
unfoldable pub relay_payload : ClientOpts → SendMessage → Seq → RelayPayload
unfolding as_i32
relay_payload opts msg seq = record {
  src = some (record {
    id = opts.client_id;
    entity_type = as_i32 opts.entity_type;
    namespace = opts.namespace;
  });
  dst = some (record {
    id = msg.target_id;
    entity_type = as_i32 msg.target_type;
    namespace = msg.target_namespace;
  });
  seq = seq;
  payload = some (record { type_url = []; value = msg.payload_data });
}
