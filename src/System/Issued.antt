-- ===== src/System/Issued.antt =====
-- What a call of relay-client/src/lib.rs puts on the channel of the actor.
use orb_relay_messages.Common.{ℕ, ◌≤◌, ◌≡◌, refl, Option, none, some, arith}
use orb_relay_messages.Common.Bytes.{Bytes}
use orb_relay_messages.Relay.{EntityType, RelayConnectRequest, try_from}
use orb_relay_messages.Client.{Seq, Sender, QoS, SendMessage}
use orb_relay_messages.Actor.Defs.{Msg}
use orb_relay_messages.Api
use orb_relay_messages.Api.{Client, RecvMessage, await_ack, await_reply_ack, reply_message}
use orb_relay_messages.System.{Call, both_up, issued}
use orb_relay_messages.System.Measured.{charges}

-- Requests to send, to stop and to reconnect are free, and a wait on `tx` costs at most `w`.
pub record IsCheap (charge : Msg → ℕ) (tx : Sender) (w : ℕ) : Type 0 where
  pub send : (r : RelayConnectRequest) → charge (Msg.send r) ≡ 0
  pub stop : charge Msg.stop ≡ 0
  pub reconnect : charge Msg.reconnect ≡ 0
  pub wait_for_ack : (m : SendMessage) (k : Seq) → charge (Msg.wait_for_ack m tx k) ≤ w
  pub wait_for_reply : (m : SendMessage) (k : Seq) → charge (Msg.wait_for_reply m tx k) ≤ w

module _ {charge : Msg → ℕ} {tx : Sender} {w : ℕ} (cheap : IsCheap charge tx w) where
  await_ack-le :
      (m : SendMessage) (k : Seq) (q : QoS)
      → charges charge (await_ack both_up m tx k none q).msgs ≤ w
  unfolding await_ack
  await_ack-le m k QoS.at_most_once = omega arith
  await_ack-le m k QoS.at_least_once = omega (arith, cheap.wait_for_ack m k)

  await_reply_ack-le :
      (r : RecvMessage) (bytes : Bytes) (q : QoS)
      → charges charge (await_reply_ack r both_up tx none bytes q).msgs ≤ w
  unfolding await_reply_ack
  await_reply_ack-le r bytes QoS.at_most_once = omega arith
  await_reply_ack-le r bytes QoS.at_least_once = go (try_from r.from.entity_type) refl
    where
      go :
          (o : Option EntityType)
          → try_from r.from.entity_type ≡ o
          → charges charge (await_reply_ack r both_up tx none bytes QoS.at_least_once).msgs ≤ w
      go none e = rw e (omega arith)
      go (some kind) e =
          rw e
            (omega (arith, cheap.wait_for_ack (reply_message r bytes QoS.at_least_once kind) r.seq))

  -- A call waits once at most, on the channel that it made.
  pub issued-le : (c : Client) (call : Call) → charges charge (issued c tx call).0 ≤ w
  unfolding issued Api.send Api.ask Api.reply Api.stop Api.reconnect
  issued-le c (Call.send m) = omega (arith, cheap.send _, await_ack-le m c.seq m.qos)
  issued-le c (Call.ask m) = omega (arith, cheap.send _, cheap.wait_for_reply m c.seq)
  issued-le c (Call.reply r bytes q) = omega (arith, cheap.send _, await_reply_ack-le r bytes q)
  issued-le c Call.stop = omega (arith, cheap.stop)
  issued-le c Call.reconnect = omega (arith, cheap.reconnect)
