-- ===== src/Actor/Handler.antt =====
-- `handle_msg`, `handle_payload` and `handle_ack` of relay-client/src/actor.rs.
pub mod Keeps
pub mod Retries
pub mod Races
use orb_relay_messages.Common.{ℕ, if◌then◌else◌, Option, none, some, ℕ_discrete}
use orb_relay_messages.Common.HashMap
use orb_relay_messages.Amount.{Amount, is_zero, decrement}
use orb_relay_messages.Relay.{Entity, Any, RelayPayload, ResponseMsg, payload_into, heartbeat_into}
use orb_relay_messages.Client.{
  ClientId, Seq, Sender, Duration, QoS, SendMessage, RecvdRelayPayload, Err, ClientOpts,
  relay_payload,
}
use orb_relay_messages.Actor.Defs.{State, Msg, Channel, Effect, ReplyKey-discrete}
use orb_relay_messages.Actor.Monad.{
  Act, ◌>>=◌, ◌>>◌, pure, raise, gets, modify, send_or, send_ignoring, later,
}

-- To the asker that waits, else to the client's own queue.
unfoldable pub deliver : RecvdRelayPayload → Option (SendMessage × Sender) → Act (Unit {0})
deliver recv_msg none =
    send_or Channel.client (Effect.to_client recv_msg) "Failed to send message to client_rx"
deliver recv_msg (some (_, reply)) =
    send_ignoring (Channel.reply reply) (Effect.to_reply reply recv_msg)

unfoldable pub handle_payload : RecvdRelayPayload → Seq → Act (Unit {0})
unfolding deliver
handle_payload recv_msg seq = do
  let key : ClientId × Seq = (recv_msg.from.id, seq)
  found ← gets (λ s. HashMap.get ReplyKey-discrete key s.pending_replies)
  modify
      (λ s. record s { pending_replies = HashMap.remove ReplyKey-discrete key s.pending_replies })
  deliver recv_msg found

unfoldable pub notify : Option (SendMessage × Sender) → Act (Unit {0})
notify none = pure tt
notify (some (_, ack_tx)) = send_ignoring (Channel.ack ack_tx) (Effect.to_ack ack_tx)

unfoldable pub handle_ack : Seq → Act (Unit {0})
unfolding notify
handle_ack seq = do
  found ← gets (λ s. HashMap.get ℕ_discrete seq s.pending_acks)
  modify (λ s. record s { pending_acks = HashMap.remove ℕ_discrete seq s.pending_acks })
  notify found

-- The payload case of a response, and the debug output for one without a payload or a source.
unfoldable pub handle_relay_payload : Option Any → Option Entity → Seq → Act (Unit {0})
unfolding handle_payload
handle_relay_payload (some payload) (some entity) seq =
    handle_payload (record { from = entity; payload = payload.value; seq = seq }) seq
handle_relay_payload _ _ seq = pure tt

unfoldable pub handle_response : ResponseMsg → Act (Unit {0})
unfolding handle_relay_payload handle_ack
handle_response (ResponseMsg.payload p) = handle_relay_payload p.payload p.src p.seq
handle_response (ResponseMsg.ack a) = handle_ack a.seq
handle_response (ResponseMsg.connect_response c) = pure tt

unfoldable pub ask_retries : ClientOpts → QoS → Amount
ask_retries opts QoS.at_most_once = Amount.val 0
ask_retries opts QoS.at_least_once = opts.max_message_attempts

-- The body of both retry cases for an entry that is still pending: nothing after the last retry,
-- else the message once more, and the next retry with what `decrement` leaves of the configured
-- attempts.
unfoldable pub resend :
    ClientOpts → SendMessage → Seq → Amount → Duration → (Amount → Msg) → Act (Unit {0})
unfolding is_zero decrement relay_payload
resend opts msg seq retries_left backoff next = if is_zero retries_left then pure tt else do
  send_or Channel.tonic (Effect.to_tonic (payload_into (relay_payload opts msg seq)))
      "Failed to send retry message to tonic_tx"
  later backoff (next (decrement opts.max_message_attempts))

unfoldable pub retry_ack_found :
    ClientOpts → Seq → Amount → Option (SendMessage × Sender) → Act (Unit {0})
unfolding resend
retry_ack_found opts seq retries_left none = pure tt
retry_ack_found opts seq retries_left (some (msg, _)) =
    resend opts msg seq retries_left opts.ack_timeout (Msg.retry_ack seq)

unfoldable pub retry_ask_found :
    ClientOpts → ClientId → Seq → Amount → Option (SendMessage × Sender) → Act (Unit {0})
unfolding resend
retry_ask_found opts from_client seq retries_left none = pure tt
retry_ask_found opts from_client seq retries_left (some (msg, _)) =
    resend opts msg seq retries_left opts.reply_timeout (Msg.retry_ask from_client seq)

unfoldable pub send_heartbeat : ClientOpts → Act (Unit {0})
send_heartbeat opts = do
  send_or Channel.tonic (Effect.to_tonic (heartbeat_into (record { seq = 0 })))
      "Failed to send heartbeat to Orb Relay Server"
  later opts.heartbeat Msg.heartbeat

unfoldable pub handle_msg : ClientOpts → Msg → Act (Unit {0})
unfolding handle_response ask_retries retry_ack_found retry_ask_found send_heartbeat
handle_msg opts (Msg.relay_response r) = handle_response r
handle_msg opts (Msg.send payload) =
    send_or Channel.tonic (Effect.to_tonic payload) "Failed to send a payload to tonic_tx"
handle_msg opts Msg.stop = raise Err.stop_request
handle_msg opts Msg.reconnect = raise Err.reconnect_request
handle_msg opts (Msg.wait_for_ack original_msg ack_tx seq) = do
  modify (λ s. record s {
    pending_acks = HashMap.insert ℕ_discrete seq (original_msg, ack_tx) s.pending_acks;
  })
  later opts.ack_timeout (Msg.retry_ack seq opts.max_message_attempts)
handle_msg opts (Msg.wait_for_reply original_msg recv_msg_tx seq) = do
  modify (λ s. record s {
    pending_replies =
        HashMap.insert ReplyKey-discrete (original_msg.target_id, seq) (original_msg, recv_msg_tx)
          s.pending_replies;
  })
  later opts.reply_timeout
      (Msg.retry_ask original_msg.target_id seq (ask_retries opts original_msg.qos))
handle_msg opts (Msg.retry_ack seq retries_left) = do
  found ← gets (λ s. HashMap.get ℕ_discrete seq s.pending_acks)
  retry_ack_found opts seq retries_left found
handle_msg opts (Msg.retry_ask from_client seq retries_left) = do
  found ← gets (λ s. HashMap.get ReplyKey-discrete (from_client, seq) s.pending_replies)
  retry_ask_found opts from_client seq retries_left found
handle_msg opts Msg.heartbeat = send_heartbeat opts
