-- ===== src/Actor/Defs.antt =====
-- The data of relay-client/src/actor.rs: its state, its messages, the channels that it sends on,
-- and the effects of its code.
use orb_relay_messages.Common.{Bool, List, ℕ_discrete}
use orb_relay_messages.Common.Bytes.{Text}
use orb_relay_messages.Common.HashMap.{HashMap}
use orb_relay_messages.Amount.{Amount}
use orb_relay_messages.Relay.{RelayConnectRequest, ResponseMsg}
use orb_relay_messages.Client.{ClientId, Seq, Sender, Duration, SendMessage, RecvdRelayPayload}

pub record State : Type 0 where
  pub pending_acks : HashMap Seq (SendMessage × Sender)
  pub pending_replies : HashMap (ClientId × Seq) (SendMessage × Sender)
  pub heartbeat_started : Bool

pub ReplyKey-discrete : Discrete (ClientId × Seq)
ReplyKey-discrete = hlevel ℕ_discrete

pub data Msg : Type 0 where
  relay_response : ResponseMsg → Msg
  send : RelayConnectRequest → Msg
  wait_for_ack : SendMessage → Sender → Seq → Msg
  wait_for_reply : SendMessage → Sender → Seq → Msg
  retry_ack : Seq → Amount → Msg
  retry_ask : ClientId → Seq → Amount → Msg
  stop : Msg
  heartbeat : Msg
  reconnect : Msg

-- The channels that the actor sends on.
pub data Channel : Type 0 where
  tonic client actor : Channel
  ack reply : Sender → Channel

-- How tonic reaches the server: the URI and the keep-alive settings of the `Endpoint`.
pub record Dial : Type 0 where
  pub domain : Text
  pub keep_alive_while_idle : Bool
  pub keep_alive_interval : Duration
  pub keep_alive_timeout : Duration

-- What happens outside the state, in order: a value sent on a channel, a task spawned that sends
-- itself a message after a sleep, a sleep of the actor, and the two calls of tonic that open a
-- connection, with the settings of the one and the metadata headers of the other.
pub data Effect : Type 0 where
  to_tonic : RelayConnectRequest → Effect
  to_client : RecvdRelayPayload → Effect
  to_ack : Sender → Effect
  to_reply : Sender → RecvdRelayPayload → Effect
  to_actor : Msg → Effect
  later : Duration → Msg → Effect
  sleep : Duration → Effect
  dial : Dial → Effect
  open_stream : List (Text × Text) → Effect
