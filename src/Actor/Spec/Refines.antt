-- ===== src/Actor/Spec/Refines.antt =====
-- The handlers of relay-client/src/actor.rs against the description of the actor.
use orb_relay_messages.Common.{
  ◌≡◌, refl, sym, ap, ap₂, subst, ◌∙◌, Option, none, some, List, [], ◌∷◌, ◌++◌, ℕ_discrete, arith,
}
use orb_relay_messages.Common.Outcome.{Outcome, ok, err, panic}
use orb_relay_messages.Common.HashMap
use orb_relay_messages.Common.HashMap.{
  HashMap, get-remove_self, get-remove_ne, get-insert_self, get-insert_ne,
}
use orb_relay_messages.Amount.{Amount, decrement}
use orb_relay_messages.Relay.{Ack, Entity, Any, ResponseMsg}
use orb_relay_messages.Client.{ClientId, Seq, RecvdRelayPayload, Err, ClientOpts}
use orb_relay_messages.Actor.Defs.{State, Msg, Effect, ReplyKey-discrete}
use orb_relay_messages.Actor.Monad.{Up, Done, Act, continue}
use orb_relay_messages.Actor.Handler.{
  handle_msg, handle_ack, handle_payload, handle_relay_payload, retry_ack_found, retry_ask_found,
  notify, deliver,
}
use orb_relay_messages.Actor.Session.{Received, StreamItem, Input, receive, serve}
use orb_relay_messages.Actor.Pending.{Entry}
use orb_relay_messages.Actor.Spec.{
  Waiters, after, emitted, goes_on, now_acked, now_replied, ack_to, payload_to, payload_goes,
  copy_of, copy_goes, handed_out, any_payload_to, any_payload_goes, after_payload, Trace, means,
  one, and_then, expected,
}
use orb_relay_messages.Actor.Spec.Shows.{Shows, get-insert, removed_ack, removed_reply}

-- What was done agrees with the description, for the effects and the outcome.
abbrev Says : Done (Unit {0}) → List Effect → Outcome Err (Unit {0}) → Type 0
Says d es r = (d.effects ≡ es) × (d.result ≡ r)

module _ (opts : ClientOpts) (up : Up) where
  abbrev Matches : Msg → State → Waiters → Type 0
  Matches m s w =
      Shows (handle_msg opts m up s).state (after m w)
      × Says (handle_msg opts m up s) (emitted opts up m w) (goes_on up m w)

  notify-Says :
      (o : Option Entry) (s : State)
      → ((notify o up s).state ≡ s) × Says (notify o up s) (ack_to up o) (ok tt)
  unfolding notify
  notify-Says none s = (refl, (refl, refl))
  notify-Says (some (m, tx)) s = ground arith

  deliver-Says :
      (r : RecvdRelayPayload) (o : Option Entry) (s : State)
      → ((deliver r o up s).state ≡ s)
        × Says (deliver r o up s) (payload_to up r o) (payload_goes up o)
  unfolding deliver
  deliver-Says r none s = ground arith
  deliver-Says r (some (m, tx)) s = ground arith

  ack-Matches :
      (a : Ack) (s : State) (w : Waiters)
      → Shows s w
      → Matches (Msg.relay_response (ResponseMsg.ack a)) s w
  unfolding handle_msg handle_ack
  ack-Matches a s w h =
      let found = HashMap.get ℕ_discrete a.seq s.pending_acks in
      let s' = record s { pending_acks = HashMap.remove ℕ_discrete a.seq s.pending_acks } in
      let (p, q) = notify-Says found s' in
      (
        subst (λ t. Shows t (now_acked a.seq w)) (sym p) (removed_ack a.seq s w h),
        (q.0 ∙ ap (ack_to up) (h.ack_at a.seq), q.1),
      )

  payload-Matches :
      (p : Option Any) (e : Option Entity) (k : Seq) (s : State) (w : Waiters)
      → Shows s w
      → Shows (handle_relay_payload p e k up s).state (after_payload (handed_out p e k) w)
        × Says
            (handle_relay_payload p e k up s)
            (any_payload_to up w (handed_out p e k))
            (any_payload_goes up w (handed_out p e k))
  unfolding handle_relay_payload handle_payload
  payload-Matches none e k s w h = (h, (refl, refl))
  payload-Matches (some p) none k s w h = (h, (refl, refl))
  payload-Matches (some p) (some e) k s w h =
      let found = HashMap.get ReplyKey-discrete (e.id, k) s.pending_replies in
      let s' = record s {
        pending_replies = HashMap.remove ReplyKey-discrete (e.id, k) s.pending_replies;
      } in
      let r : RecvdRelayPayload = record { from = e; payload = p.value; seq = k } in
      let (q, says) = deliver-Says r found s' in
      (
        subst (λ t. Shows t (now_replied (e.id, k) w)) (sym q) (removed_reply (e.id, k) s w h),
        (
          says.0 ∙ ap (payload_to up r) (h.reply_at (e.id, k)),
          says.1 ∙ ap (payload_goes up) (h.reply_at (e.id, k)),
        ),
      )

  retry_ack-Matches :
      (k : Seq) (left : Amount) (s : State) (w : Waiters)
      → Shows s w
      → Matches (Msg.retry_ack k left) s w
  unfolding handle_msg
  retry_ack-Matches k left s w h = go (w.for_ack k) (h.ack_at k)
    where
      go :
          (o : Option Entry)
          → HashMap.get ℕ_discrete k s.pending_acks ≡ o
          → Shows (handle_msg opts (Msg.retry_ack k left) up s).state w
            × Says
                (handle_msg opts (Msg.retry_ack k left) up s)
                (copy_of opts up k left
                  (Effect.later opts.ack_timeout
                    (Msg.retry_ack k (decrement opts.max_message_attempts)))
                  o)
                (copy_goes up left o)
      go none e = ground (arith, e, h)
      go (some (m, tx)) e = ground (arith, e, h, retry_ack_found)

  retry_ask-Matches :
      (c : ClientId) (k : Seq) (left : Amount) (s : State) (w : Waiters)
      → Shows s w
      → Matches (Msg.retry_ask c k left) s w
  unfolding handle_msg
  retry_ask-Matches c k left s w h = go (w.for_reply (c, k)) (h.reply_at (c, k))
    where
      go :
          (o : Option Entry)
          → HashMap.get ReplyKey-discrete (c, k) s.pending_replies ≡ o
          → Shows (handle_msg opts (Msg.retry_ask c k left) up s).state w
            × Says
                (handle_msg opts (Msg.retry_ask c k left) up s)
                (copy_of opts up k left
                  (Effect.later opts.reply_timeout
                    (Msg.retry_ask c k (decrement opts.max_message_attempts)))
                  o)
                (copy_goes up left o)
      go none e = ground (arith, e, h)
      go (some (m, tx)) e = ground (arith, e, h, retry_ask_found)

  -- Each message: the handler leaves tables that show the waiters described, sends and starts
  -- exactly the effects described, in order, and goes on or fails as described.
  handle_msg-Matches : (m : Msg) (s : State) (w : Waiters) → Shows s w → Matches m s w
  unfolding handle_msg
  handle_msg-Matches (Msg.relay_response (ResponseMsg.ack a)) s w h = ack-Matches a s w h
  handle_msg-Matches (Msg.relay_response (ResponseMsg.payload p)) s w h =
      payload-Matches p.payload p.src p.seq s w h
  handle_msg-Matches (Msg.relay_response (ResponseMsg.connect_response c)) s w h = (h, (refl, refl))
  handle_msg-Matches (Msg.send r) s w h = ground (arith, h)
  handle_msg-Matches (Msg.wait_for_ack m tx k) s w h = (
    record {
      ack_at = get-insert ℕ_discrete k (m, tx) s.pending_acks w.for_ack h.ack_at;
      reply_at = h.reply_at;
      beats = h.beats;
    },
    (refl, refl),
  )
  handle_msg-Matches (Msg.wait_for_reply m tx k) s w h = (
    record {
      ack_at = h.ack_at;
      reply_at =
          get-insert ReplyKey-discrete (m.target_id, k) (m, tx) s.pending_replies w.for_reply
            h.reply_at;
      beats = h.beats;
    },
    (refl, refl),
  )
  handle_msg-Matches (Msg.retry_ack k left) s w h = retry_ack-Matches k left s w h
  handle_msg-Matches (Msg.retry_ask c k left) s w h = retry_ask-Matches c k left s w h
  handle_msg-Matches Msg.stop s w h = (h, (refl, refl))
  handle_msg-Matches Msg.heartbeat s w h = ground (arith, h)
  handle_msg-Matches Msg.reconnect s w h = (h, (refl, refl))

-- What was done agrees with a trace, the tables shown included.
abbrev pub Follows : Done (Unit {0}) → Trace → Type 0
Follows d t = Shows d.state t.waiters × Says d t.effects t.result

module _ (opts : ClientOpts) where
  receive-Follows :
      (r : Received) (up : Up) (s : State) (w : Waiters)
      → Shows s w
      → Follows (receive opts r up s) (one opts up (means r) w)
  unfolding receive
  receive-Follows (Received.from_actor m) up s w h = handle_msg-Matches opts up m s w h
  receive-Follows Received.actor_closed up s w h = (h, (refl, refl))
  receive-Follows (Received.from_stream StreamItem.ended) up s w h = (h, (refl, refl))
  receive-Follows (Received.from_stream (StreamItem.status t)) up s w h = (h, (refl, refl))
  receive-Follows (Received.from_stream (StreamItem.message none)) up s w h = (h, (refl, refl))
  receive-Follows (Received.from_stream (StreamItem.message (some r))) up s w h =
      handle_msg-Matches opts up (Msg.relay_response r) s w h

  continue-Follows :
      (up : Up) (d : Done (Unit {0})) (t : Trace) (f : Act (Unit {0})) (rest : Waiters → Trace)
      → Follows d t
      → ((s : State) → Shows s t.waiters → Follows (f up s) (rest t.waiters))
      → (r : Outcome Err (Unit {0})) → t.result ≡ r
      → Follows (continue up d.state d.effects (λ _. f) r) (and_then t rest r)
  continue-Follows up d t f rest (h, (e, q)) g (ok a) p =
      let (h', (e', q')) = g d.state h in (h', (ap₂ ◌++◌ e e', q'))
  continue-Follows up d t f rest (h, (e, q)) g (err x) p = (h, (e, sym p))
  continue-Follows up d t f rest (h, (e, q)) g panic p = (h, (e, sym p))

  -- A connection does what the description says, over any inputs in any order: from tables that show
  -- some waiters, the handlers leave tables that show the waiters described, send exactly the effects
  -- described, in order, and go on, end or fail as described. Nothing but the lookups of the tables
  -- matters.
  pub serve-Follows :
      (is : List Input) (up : Up) (s : State) (w : Waiters)
      → Shows s w
      → Follows (serve opts is up s) (expected opts is w)
  unfolding serve expected
  serve-Follows [] up s w h = (h, (refl, refl))
  serve-Follows (i ∷ is) up s w h =
      let d = receive opts i.received i.up s in
      let t = one opts i.up (means i.received) w in
      let (h', (e, q)) = receive-Follows i.received i.up s w h in
      subst
        (λ r.
          Follows (continue up d.state d.effects (λ _. serve opts is) r)
            (and_then t (expected opts is) t.result))
        (sym q)
        (continue-Follows up d t (serve opts is) (expected opts is) (h', (e, q))
          (λ s' k. serve-Follows is up s' t.waiters k) t.result refl)
