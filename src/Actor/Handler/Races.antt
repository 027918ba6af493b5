-- ===== src/Actor/Handler/Races.antt =====
-- Two orders of events that the handlers of relay-client/src/actor.rs do not tell apart from the
-- usual ones: two waits under one number, and a reply ahead of its `WaitForReply`.
use orb_relay_messages.Common.{◌≡◌, ◌≢◌, sym, ap, subst, true, Option, none, [], ◌∷◌, ℕ_discrete}
use orb_relay_messages.Common.HashMap
use orb_relay_messages.Common.HashMap.{
  get-remove_self, get-remove_ne, get-insert_self, get-insert_ne,
}
use orb_relay_messages.Relay.{Entity, Any}
use orb_relay_messages.Client.{Seq, Sender, SendMessage, ClientOpts}
use orb_relay_messages.Actor.Defs.{State, Msg, Channel, Effect, ReplyKey-discrete}
use orb_relay_messages.Actor.Monad.{Up, ◌>>◌}
use orb_relay_messages.Actor.Handler.{ask_retries, handle_msg, deliver}
use orb_relay_messages.Actor.Payload.{recvd, payload_msg}
use orb_relay_messages.Actor.Pending.{Waits, Unused, evicts, insert-Waits, removed-Unused}

-- A wait under a number that another sender waits under replaces it: afterwards no entry holds the
-- first sender's channel, which no ack can reach any more.
pub wait_for_ack-evicts :
    (opts : ClientOpts) (seq : Seq) (m m' : SendMessage) (tx tx' : Sender) (up : Up) (s : State)
    → Waits ℕ_discrete seq m tx s.pending_acks
    → tx' ≢ tx
    → Unused ℕ_discrete tx (handle_msg opts (Msg.wait_for_ack m' tx' seq) up s).state.pending_acks
unfolding handle_msg
wait_for_ack-evicts opts seq m m' tx tx' up s w n = evicts ℕ_discrete m' tx' n w

-- A reply that is handled before the `WaitForReply` of its question misses the asker: it goes to
-- the client's own queue, and the asker then waits for a second payload of the same number.
pub early_reply :
    (opts : ClientOpts) (seq : Seq) (m : SendMessage) (tx : Sender) (src : Entity)
    (dst : Option Entity) (p : Any) (up : Up) (s : State)
    → src.id ≡ m.target_id
    → up Channel.client ≡ true
    → HashMap.get ReplyKey-discrete (src.id, seq) s.pending_replies ≡ none
    → Unused ReplyKey-discrete tx s.pending_replies
    → let d =
        (handle_msg opts (payload_msg src dst seq p)
            >> handle_msg opts (Msg.wait_for_reply m tx seq))
          up s in
      (d.effects
        ≡ Effect.to_client (recvd src seq p)
          ∷ Effect.later opts.reply_timeout (Msg.retry_ask m.target_id seq (ask_retries opts m.qos))
          ∷ [])
      × Waits ReplyKey-discrete (src.id, seq) m tx d.state.pending_replies
unfolding handle_msg
early_reply opts seq m tx src dst p up s same u free fresh =
    let left = HashMap.remove ReplyKey-discrete (src.id, seq) s.pending_replies in
    let table : ((handle_msg opts (payload_msg src dst seq p)
            >> handle_msg opts (Msg.wait_for_reply m tx seq))
          up s).state.pending_replies
        ≡ HashMap.insert ReplyKey-discrete (src.id, seq) (m, tx) left =
      rw (free, deliver, u)
        (ap (λ c. HashMap.insert ReplyKey-discrete (c, seq) (m, tx) left) (sym same)) in
    (
      rw (free, deliver, u),
      subst (Waits ReplyKey-discrete (src.id, seq) m tx) (sym table) (
          insert-Waits ReplyKey-discrete left (src.id, seq) m tx
            (removed-Unused ReplyKey-discrete s.pending_replies (src.id, seq) tx fresh)),
    )
