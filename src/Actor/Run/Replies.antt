-- ===== src/Actor/Run/Replies.antt =====
-- `ask` seen from the actor: the entry of `pending_replies`, from `Msg::WaitForReply` to the payload
-- that answers.
use orb_relay_messages.Common.{
  ℕ, ◌≡◌, ◌≢◌, refl, ap, ◌∙◌, List, [], ◌∷◌, All, Option, none, some, true,
}
use orb_relay_messages.Common.Outcome.{ok}
use orb_relay_messages.Common.Bytes.{Text}
use orb_relay_messages.Common.HashMap
use orb_relay_messages.Common.HashMap.{
  HashMap, get-remove_self, get-remove_ne, get-insert_self, get-insert_ne,
}
use orb_relay_messages.Relay.{Entity, Any, ResponseMsg}
use orb_relay_messages.Client.{ClientId, Seq, Sender, SendMessage, RecvdRelayPayload, ClientOpts}
use orb_relay_messages.Actor.Defs.{State, Msg, Channel, Effect, ReplyKey-discrete}
use orb_relay_messages.Actor.Monad.{Up}
use orb_relay_messages.Actor.Handler.{
  ask_retries, handle_msg, handle_payload, handle_relay_payload, deliver,
}
use orb_relay_messages.Actor.Keeps.{
  Keeps, bind-Keeps, pure-Keeps, raise-Keeps, modify-Keeps, later-Keeps, send_or-Keeps,
  send_ignoring-Keeps,
}
use orb_relay_messages.Actor.Handler.Keeps.{
  retry_ack-Keeps, retry_ask-Keeps, heartbeat-Keeps, start_heartbeat-Keeps, handle_ack-Keeps,
}
use orb_relay_messages.Actor.Payload.{recvd, payload_msg}
use orb_relay_messages.Actor.Pending.{
  Waits, Unused, insert-Waits, removed-Waits, inserted-Waits, other_tx,
}
use orb_relay_messages.Actor.Run.{Session, run_loop}
use orb_relay_messages.Actor.Run.Keeps.{OkSessions, run_loop-Meets}

module _ (c : ClientId) (seq : Seq) (m : SendMessage) (tx : Sender) where
  abbrev pub WaitsForReply : State → Type 0
  WaitsForReply s = Waits ReplyKey-discrete (c, seq) m tx s.pending_replies

  -- Nothing is sent to the asker.
  abbrev pub Silent : Effect → Type 0
  Silent (Effect.to_reply t r) = t ≢ tx
  Silent _ = Unit {0}

  abbrev OtherPayload : Option Any → Option Entity → Seq → Type 0
  OtherPayload (some p) (some e) k = ◌≢◌ {A = ClientId × Seq} (e.id, k) (c, seq)
  OtherPayload _ _ k = Unit {0}

  -- Messages other than a payload of `c` with the number `seq`, another wait under the two, and
  -- another use of `tx`.
  abbrev pub SparesMsg : Msg → Type 0
  SparesMsg (Msg.relay_response (ResponseMsg.payload p)) = OtherPayload p.payload p.src p.seq
  SparesMsg (Msg.wait_for_reply m' tx' k) =
      (◌≢◌ {A = ClientId × Seq} (m'.target_id, k) (c, seq)) × (tx' ≢ tx)
  SparesMsg _ = Unit {0}

  deliver-Keeps :
      (r : RecvdRelayPayload) (o : Option (SendMessage × Sender))
      → ((m' : SendMessage) (tx' : Sender) → o ≡ some (m', tx') → tx' ≢ tx)
      → Keeps WaitsForReply Silent (deliver r o)
  unfolding deliver
  deliver-Keeps r none h = send_or-Keeps _ _ _ tt
  deliver-Keeps r (some (m', tx')) h = send_ignoring-Keeps _ _ (h m' tx' refl)

  other_payload :
      (p : Option Any) (e : Option Entity) (k : Seq)
      → OtherPayload p e k
      → Keeps WaitsForReply Silent (handle_relay_payload p e k)
  unfolding handle_relay_payload handle_payload
  other_payload (some p) (some e) k n = record {
    at = λ up s w.
        (deliver-Keeps _ (HashMap.get ReplyKey-discrete (e.id, k) s.pending_replies)
            (other_tx ReplyKey-discrete (e.id, k) n w)).at
          up _ (removed-Waits ReplyKey-discrete (e.id, k) n w);
  }
  other_payload none e k n = pure-Keeps tt
  other_payload (some p) none k n = pure-Keeps tt

  other_msg :
      (opts : ClientOpts) (msg : Msg)
      → SparesMsg msg
      → Keeps WaitsForReply Silent (handle_msg opts msg)
  unfolding handle_msg
  other_msg opts (Msg.relay_response (ResponseMsg.ack a)) h =
      handle_ack-Keeps (λ s t w. w) (λ t. tt) a.seq
  other_msg opts (Msg.relay_response (ResponseMsg.payload p)) h =
      other_payload p.payload p.src p.seq h
  other_msg opts (Msg.relay_response (ResponseMsg.connect_response r)) h = pure-Keeps tt
  other_msg opts (Msg.send r) h = send_or-Keeps _ _ _ tt
  other_msg opts (Msg.wait_for_ack m' tx' k) h =
      bind-Keeps (modify-Keeps _ (λ s w. w))
        (λ _. later-Keeps opts.ack_timeout (Msg.retry_ack k opts.max_message_attempts) tt)
  other_msg opts (Msg.wait_for_reply m' tx' k) h =
      bind-Keeps
        (modify-Keeps _ (λ s. inserted-Waits ReplyKey-discrete (m'.target_id, k) m' tx' h.0 h.1))
        (λ _.
          later-Keeps opts.reply_timeout (Msg.retry_ask m'.target_id k (ask_retries opts m'.qos))
            tt)
  other_msg opts (Msg.retry_ack k left) h = retry_ack-Keeps opts (λ m k. tt) k left (λ a. tt)
  other_msg opts (Msg.retry_ask c' k left) h = retry_ask-Keeps opts (λ m k. tt) c' k left (λ a. tt)
  other_msg opts Msg.stop h = raise-Keeps _
  other_msg opts Msg.heartbeat h = heartbeat-Keeps opts tt tt
  other_msg opts Msg.reconnect h = raise-Keeps _

  abbrev pub SparesAll : List Session → Type 0
  SparesAll = OkSessions SparesMsg

  -- While nothing concerns the question, the asker keeps waiting and gets nothing.
  run_loop-WaitsForReply :
      (opts : ClientOpts) (n : ℕ) (s : State) (xs : List Session)
      → SparesAll xs
      → WaitsForReply s
      → WaitsForReply (run_loop opts n s xs).state × All Silent (run_loop opts n s xs).effects
  run_loop-WaitsForReply opts n s xs h w =
      run_loop-Meets WaitsForReply Silent opts (λ d. tt) (λ h. tt) (λ r. tt) (λ r. tt) tt
        (start_heartbeat-Keeps opts (λ s w. w) tt) SparesMsg (other_msg opts) n s xs h w

-- Who gets a payload, by the question that waits for it.
abbrev pub receiver : RecvdRelayPayload → Option (SendMessage × Sender) → Effect
receiver r none = Effect.to_client r
receiver r (some (_, tx)) = Effect.to_reply tx r

delivered :
    (r : RecvdRelayPayload) (o : Option (SendMessage × Sender)) (up : Up) (s : State)
    → ((ch : Channel) → up ch ≡ true)
    → deliver r o up s ≡ record { state = s; effects = receiver r o ∷ []; result = ok tt }
unfolding deliver
delivered r none up s h = rw (h Channel.client)
delivered r (some (m, tx)) up s h = rw (h (Channel.reply tx))

-- A payload reaches exactly one receiver. If a question to its sender with its number waits, the
-- asker gets it, the entry goes and the client's own queue gets nothing; if none waits, the
-- client's own queue gets it and no asker does. In both cases every other question waits on.
pub payload_goes_to_one :
    (opts : ClientOpts) (src : Entity) (dst : Option Entity) (seq : Seq) (p : Any) (up : Up)
    (s : State)
    → ((ch : Channel) → up ch ≡ true)
    → let d = handle_msg opts (payload_msg src dst seq p) up s in
      (d.effects
        ≡ receiver (recvd src seq p) (HashMap.get ReplyKey-discrete (src.id, seq) s.pending_replies)
          ∷ [])
      × (d.result ≡ ok tt)
      × (d.state ≡ record s {
        pending_replies = HashMap.remove ReplyKey-discrete (src.id, seq) s.pending_replies;
      })
unfolding handle_msg
payload_goes_to_one opts src dst seq p up s h =
    let found = HashMap.get ReplyKey-discrete (src.id, seq) s.pending_replies in
    let s' = record s {
      pending_replies = HashMap.remove ReplyKey-discrete (src.id, seq) s.pending_replies;
    } in
    let e = delivered (recvd src seq p) found up s' h in
    (ap (λ d. d.effects) e, ap (λ d. d.result) e, ap (λ d. d.state) e)

abbrev pub target : SendMessage → ℕ → Text → Entity
target m kind ns = record { id = m.target_id; entity_type = kind; namespace = ns }

reply_notifies :
    (seq : Seq) (m : SendMessage) (tx : Sender) (opts : ClientOpts) (kind : ℕ) (ns : Text)
    (dst : Option Entity) (p : Any) (up : Up) (s : State)
    → WaitsForReply m.target_id seq m tx s
    → up (Channel.reply tx) ≡ true
    → handle_msg opts (payload_msg (target m kind ns) dst seq p) up s ≡ record {
      state = record s {
        pending_replies = HashMap.remove ReplyKey-discrete (m.target_id, seq) s.pending_replies;
      };
      effects = Effect.to_reply tx (recvd (target m kind ns) seq p) ∷ [];
      result = ok tt;
    }
unfolding handle_msg
reply_notifies seq m tx opts kind ns dst p up s w u = rw (w.held, deliver) (rw u)

-- A question is answered exactly by its reply. From `WaitForReply` with a fresh reply channel on,
-- over any rounds of any number of connections in which nothing else concerns the question, the
-- channel gets nothing; then a payload from the target's id with the question's number, of any
-- entity type and namespace, with the asker still waiting, goes to the asker and to nobody else,
-- and clears the entry.
pub reply_answers :
    (opts : ClientOpts) (seq : Seq) (m : SendMessage) (tx : Sender) (up up' : Up) (n : ℕ)
    (s : State) (xs : List Session) (kind : ℕ) (ns : Text) (dst : Option Entity) (p : Any)
    → Unused ReplyKey-discrete tx s.pending_replies
    → SparesAll m.target_id seq m tx xs
    → up' (Channel.reply tx) ≡ true
    → let r = run_loop opts n (handle_msg opts (Msg.wait_for_reply m tx seq) up s).state xs in
      let d = handle_msg opts (payload_msg (target m kind ns) dst seq p) up' r.state in
      All (Silent m.target_id seq m tx) r.effects
      × (d.effects ≡ Effect.to_reply tx (recvd (target m kind ns) seq p) ∷ [])
      × (d.result ≡ ok tt)
      × (HashMap.get ReplyKey-discrete (m.target_id, seq) d.state.pending_replies ≡ none)
unfolding handle_msg
reply_answers opts seq m tx up up' n s xs kind ns dst p fresh h u =
    let s' = (handle_msg opts (Msg.wait_for_reply m tx seq) up s).state in
    let start = insert-Waits ReplyKey-discrete s.pending_replies (m.target_id, seq) m tx fresh in
    let (w, q) = run_loop-WaitsForReply m.target_id seq m tx opts n s' xs h start in
    let e = reply_notifies seq m tx opts kind ns dst p up' (run_loop opts n s' xs).state w u in
    (
      q,
      ap (λ d. d.effects) e,
      ap (λ d. d.result) e,
      ap (λ d. HashMap.get ReplyKey-discrete (m.target_id, seq) d.state.pending_replies) e
          ∙ get-remove_self ReplyKey-discrete (m.target_id, seq) _,
    )
