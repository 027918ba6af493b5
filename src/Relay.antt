-- ===== src/Relay.antt =====
-- The relay messages of proto/relay.proto as `prost` declares them, and the conversions of
-- rust/src/lib.rs. An i32 is kept as its 32-bit pattern.
use orb_relay_messages.Common.{ℕ, Bool, Option, none, some, ◌==◌, if◌then◌else◌}
use orb_relay_messages.Common.Bytes.{Bytes, Text}

pub data EntityType : Type 0 where
  unspecified app orb service : EntityType

-- `entity_type as i32`.
unfoldable pub as_i32 : EntityType → ℕ
as_i32 EntityType.unspecified = 0
as_i32 EntityType.app = 1
as_i32 EntityType.orb = 2
as_i32 EntityType.service = 3

-- `EntityType::try_from`.
unfoldable pub try_from : ℕ → Option EntityType
try_from n =
    if n == 0
    then some EntityType.unspecified
    else if n == 1
    then some EntityType.app
    else if n == 2
    then some EntityType.orb
    else if n == 3
    then some EntityType.service
    else none

pub record Entity : Type 0 where
  pub id : Text
  pub entity_type : ℕ
  pub namespace : Text

-- `google.protobuf.Any`.
pub record Any : Type 0 where
  pub type_url : Text
  pub value : Bytes

pub record RelayPayload : Type 0 where
  pub src : Option Entity
  pub dst : Option Entity
  pub seq : ℕ
  pub payload : Option Any

pub record Heartbeat : Type 0 where
  pub seq : ℕ

pub record Ack : Type 0 where
  pub seq : ℕ
  pub subscriber_count : Option ℕ

pub record ZkpAuthRequest : Type 0 where
  pub root : Text
  pub signal : Text
  pub nullifier_hash : Text
  pub proof : Text

pub data AuthMethod : Type 0 where
  token : Text → AuthMethod
  zkp_auth_request : ZkpAuthRequest → AuthMethod

pub record ConnectRequest : Type 0 where
  pub client_id : Option Entity
  pub auth_method : Option AuthMethod

pub record ConnectResponse : Type 0 where
  pub client_id : Text
  pub success : Bool
  pub error : Text

-- `relay_connect_request::Msg`.
pub data RequestMsg : Type 0 where
  heartbeat : Heartbeat → RequestMsg
  connect_request : ConnectRequest → RequestMsg
  payload : RelayPayload → RequestMsg

pub record RelayConnectRequest : Type 0 where
  pub msg : Option RequestMsg

-- `relay_connect_response::Msg`.
pub data ResponseMsg : Type 0 where
  ack : Ack → ResponseMsg
  connect_response : ConnectResponse → ResponseMsg
  payload : RelayPayload → ResponseMsg

pub record RelayConnectResponse : Type 0 where
  pub msg : Option ResponseMsg

-- The three `From` implementations.
abbrev pub payload_into : RelayPayload → RelayConnectRequest
payload_into p = record { msg = some (RequestMsg.payload p) }

abbrev pub heartbeat_into : Heartbeat → RelayConnectRequest
heartbeat_into h = record { msg = some (RequestMsg.heartbeat h) }

abbrev pub connect_request_into : ConnectRequest → RelayConnectRequest
connect_request_into c = record { msg = some (RequestMsg.connect_request c) }
