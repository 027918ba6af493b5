-- ===== src/System/Confirmed.antt =====
-- A send and a question of a client at work, from the time that the wait is the first message on the
-- channel of the actor to the ack or the reply.
use orb_relay_messages.Common.{ℕ, ◌≡◌, true, Option, none, List, [], ◌∷◌, All, ℕ_discrete}
use orb_relay_messages.Common.Bytes.{Text}
use orb_relay_messages.Common.Outcome.{ok}
use orb_relay_messages.Common.HashMap
use orb_relay_messages.Common.HashMap.{HashMap}
use orb_relay_messages.Relay.{Entity, Any, ResponseMsg}
use orb_relay_messages.Client.{Seq, Sender, SendMessage, ClientOpts}
use orb_relay_messages.Actor.Defs.{Msg, Channel, Effect, ReplyKey-discrete}
use orb_relay_messages.Actor.Monad.{Up}
use orb_relay_messages.Actor.Handler.{handle_msg}
use orb_relay_messages.Actor.Run.{Session, run_loop}
use orb_relay_messages.Actor.Run.Acks.{Silent, SparesAll, ack_confirms}
use orb_relay_messages.Actor.Payload.{payload_msg, recvd}
use orb_relay_messages.Actor.Run.Replies
use orb_relay_messages.Actor.Run.Replies.{target, reply_answers}
use orb_relay_messages.Actor.Run.Amortized.{total}
use orb_relay_messages.Actor.Run.Notified.{acks_in, replies_in}
use orb_relay_messages.System.{System, Reach}
use orb_relay_messages.System.Once.{is_tx, first_wait_for_ack, first_wait_for_reply}

-- A send is confirmed exactly by its ack, whatever came before. At any time at which the
-- `WaitForAck` of a call comes first on the channel of the actor, the channel that it brings got
-- nothing yet; over any rounds from then on in which nothing else concerns the sequence number or
-- that channel it gets nothing either; then the server's `Ack` of the number, with the sender still
-- waiting, puts exactly one value on it and clears the entry.
pub send_confirmed :
    (opts : ClientOpts) (s : System) (m : SendMessage) (tx : Sender) (seq : Seq) (ms : List Msg)
    (up up' : Up) (n : ℕ) (xs : List Session) (c : Option ℕ)
    → Reach opts s
    → s.channel ≡ Msg.wait_for_ack m tx seq ∷ ms
    → SparesAll seq m tx xs
    → up' (Channel.ack tx) ≡ true
    → let r = run_loop opts n (handle_msg opts (Msg.wait_for_ack m tx seq) up s.state).state xs in
      let d =
        handle_msg opts
          (Msg.relay_response (ResponseMsg.ack (record { seq = seq; subscriber_count = c })))
          up'
          r.state in
      (total (acks_in (is_tx tx)) s.effects ≡ 0)
      × All (Silent seq m tx) r.effects
      × (d.effects ≡ Effect.to_ack tx ∷ [])
      × (d.result ≡ ok tt)
      × (HashMap.get ℕ_discrete seq d.state.pending_acks ≡ none)
send_confirmed opts s m tx seq ms up up' n xs c r e h u =
    let (fresh, nothing) = first_wait_for_ack tx opts s m seq ms r e in
    let (silent, one, fine, cleared) = ack_confirms opts seq m tx up up' n s.state xs c fresh h u in
    (nothing, silent, one, fine, cleared)

-- A question is answered exactly by its reply, whatever came before. At any time at which the
-- `WaitForReply` of a call comes first on the channel of the actor, the channel that it brings got
-- nothing yet; over any rounds from then on in which nothing else concerns the question it gets
-- nothing either; then a payload from the target's id with the question's number, of any entity type
-- and namespace, with the asker still waiting, goes to the asker and to nobody else, and clears the
-- entry.
pub question_answered :
    (opts : ClientOpts) (s : System) (m : SendMessage) (tx : Sender) (seq : Seq) (ms : List Msg)
    (up up' : Up) (n : ℕ) (xs : List Session) (kind : ℕ) (ns : Text) (dst : Option Entity) (p : Any)
    → Reach opts s
    → s.channel ≡ Msg.wait_for_reply m tx seq ∷ ms
    → Replies.SparesAll m.target_id seq m tx xs
    → up' (Channel.reply tx) ≡ true
    → let r = run_loop opts n (handle_msg opts (Msg.wait_for_reply m tx seq) up s.state).state xs in
      let d = handle_msg opts (payload_msg (target m kind ns) dst seq p) up' r.state in
      (total (replies_in (is_tx tx)) s.effects ≡ 0)
      × All (Replies.Silent m.target_id seq m tx) r.effects
      × (d.effects ≡ Effect.to_reply tx (recvd (target m kind ns) seq p) ∷ [])
      × (d.result ≡ ok tt)
      × (HashMap.get ReplyKey-discrete (m.target_id, seq) d.state.pending_replies ≡ none)
question_answered opts s m tx seq ms up up' n xs kind ns dst p r e h u =
    let (fresh, nothing) = first_wait_for_reply tx opts s m seq ms r e in
    let (silent, one, fine, cleared) =
      reply_answers opts seq m tx up up' n s.state xs kind ns dst p fresh h u in
    (nothing, silent, one, fine, cleared)
