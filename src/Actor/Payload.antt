-- ===== src/Actor/Payload.antt =====
-- A relayed payload of proto/relay.proto, as the actor's message and as what its handler hands out.
use orb_relay_messages.Common.{Option, some}
use orb_relay_messages.Relay.{Entity, Any, ResponseMsg}
use orb_relay_messages.Client.{Seq, RecvdRelayPayload}
use orb_relay_messages.Actor.Defs.{Msg}

-- A payload of the given sender and number, as the actor hands it out.
abbrev pub recvd : Entity → Seq → Any → RecvdRelayPayload
recvd from seq payload = record { from = from; payload = payload.value; seq = seq }

-- The message of a payload, as the server relays it.
abbrev pub payload_msg : Entity → Option Entity → Seq → Any → Msg
payload_msg src dst seq payload =
    Msg.relay_response (
      ResponseMsg.payload (record { src = some src; dst = dst; seq = seq; payload = some payload }))
