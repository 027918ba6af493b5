-- ===== src/Actor/Run/Acks.antt =====
-- `send` with `QoS::AtLeastOnce` seen from the actor: the entry of `pending_acks`, from
-- `Msg::WaitForAck` to the `Ack` of the server.
use orb_relay_messages.Common.{
  ℕ, ℕ_discrete, ◌≡◌, ◌≢◌, refl, ap, ◌∙◌, List, [], ◌∷◌, All, Option, none, some, Bool, true, false,
}
use orb_relay_messages.Common.Outcome.{ok}
use orb_relay_messages.Common.HashMap
use orb_relay_messages.Common.HashMap.{
  HashMap, get-remove_self, get-remove_ne, get-insert_self, get-insert_ne,
}
use orb_relay_messages.Relay.{ResponseMsg}
use orb_relay_messages.Client.{Seq, Sender, SendMessage, ClientOpts}
use orb_relay_messages.Actor.Defs.{State, Msg, Channel, Effect}
use orb_relay_messages.Actor.Monad.{Up}
use orb_relay_messages.Actor.Handler.{ask_retries, handle_msg, handle_ack, notify}
use orb_relay_messages.Actor.Keeps.{
  Keeps, bind-Keeps, pure-Keeps, raise-Keeps, modify-Keeps, later-Keeps, send_or-Keeps,
  send_ignoring-Keeps,
}
use orb_relay_messages.Actor.Handler.Keeps.{
  retry_ack-Keeps, retry_ask-Keeps, heartbeat-Keeps, start_heartbeat-Keeps,
  handle_relay_payload-Keeps,
}
use orb_relay_messages.Actor.Pending.{
  Waits, Unused, insert-Waits, removed-Waits, inserted-Waits, other_tx,
}
use orb_relay_messages.Actor.Run.{Session, run_loop}
use orb_relay_messages.Actor.Run.Keeps.{OkSessions, run_loop-Meets}

abbrev is_ack : Effect → Bool
is_ack (Effect.to_ack tx) = true
is_ack _ = false

module _ (seq : Seq) (m : SendMessage) (tx : Sender) where
  abbrev pub WaitsForAck : State → Type 0
  WaitsForAck s = Waits ℕ_discrete seq m tx s.pending_acks

  abbrev pub Silent : Effect → Type 0
  Silent e = e ≢ Effect.to_ack tx

  -- Messages other than the ack of `seq`, another wait under `seq`, and another use of `tx`.
  abbrev pub SparesMsg : Msg → Type 0
  SparesMsg (Msg.relay_response (ResponseMsg.ack a)) = a.seq ≢ seq
  SparesMsg (Msg.wait_for_ack m' tx' k) = (k ≢ seq) × (tx' ≢ tx)
  SparesMsg _ = Unit {0}

  notify-Keeps :
      (o : Option (SendMessage × Sender))
      → ((m' : SendMessage) (tx' : Sender) → o ≡ some (m', tx') → tx' ≢ tx)
      → Keeps WaitsForAck Silent (notify o)
  unfolding notify
  notify-Keeps none h = pure-Keeps tt
  notify-Keeps (some (m', tx')) h = let n = h m' tx' refl in send_ignoring-Keeps _ _ (λ e. n (cc))

  other_ack : (k : Seq) → k ≢ seq → Keeps WaitsForAck Silent (handle_ack k)
  unfolding handle_ack
  other_ack k n = record {
    at = λ up s w.
        (notify-Keeps (HashMap.get ℕ_discrete k s.pending_acks) (other_tx ℕ_discrete k n w)).at up _
          (removed-Waits ℕ_discrete k n w);
  }

  not_ack : (e : Effect) → is_ack e ≡ false → Silent e
  not_ack e n p = cc (ap is_ack p)

  other_msg :
      (opts : ClientOpts) (msg : Msg)
      → SparesMsg msg
      → Keeps WaitsForAck Silent (handle_msg opts msg)
  unfolding handle_msg
  other_msg opts (Msg.relay_response (ResponseMsg.ack a)) h = other_ack a.seq h
  other_msg opts (Msg.relay_response (ResponseMsg.payload p)) h =
      handle_relay_payload-Keeps (λ s r w. w) (λ r. not_ack _ refl) (λ t r. not_ack _ refl)
        p.payload p.src p.seq
  other_msg opts (Msg.relay_response (ResponseMsg.connect_response c)) h = pure-Keeps tt
  other_msg opts (Msg.send r) h = send_or-Keeps _ _ _ (not_ack _ refl)
  other_msg opts (Msg.wait_for_ack m' tx' k) h =
      bind-Keeps (modify-Keeps _ (λ s. inserted-Waits ℕ_discrete k m' tx' h.0 h.1)) (λ _.
        later-Keeps opts.ack_timeout (Msg.retry_ack k opts.max_message_attempts) (not_ack _ refl))
  other_msg opts (Msg.wait_for_reply m' tx' k) h = bind-Keeps (modify-Keeps _ (λ s w. w)) (λ _.
      later-Keeps opts.reply_timeout (Msg.retry_ask m'.target_id k (ask_retries opts m'.qos))
        (not_ack _ refl))
  other_msg opts (Msg.retry_ack k left) h =
      retry_ack-Keeps opts (λ m k. not_ack _ refl) k left (λ a. not_ack _ refl)
  other_msg opts (Msg.retry_ask c k left) h =
      retry_ask-Keeps opts (λ m k. not_ack _ refl) c k left (λ a. not_ack _ refl)
  other_msg opts Msg.stop h = raise-Keeps _
  other_msg opts Msg.heartbeat h = heartbeat-Keeps opts (not_ack _ refl) (not_ack _ refl)
  other_msg opts Msg.reconnect h = raise-Keeps _

  abbrev pub SparesAll : List Session → Type 0
  SparesAll = OkSessions SparesMsg

  -- While nothing concerns `seq`, whatever is received, whatever fails, however often the client
  -- connects again: the sender keeps waiting and is not notified.
  run_loop-WaitsForAck :
      (opts : ClientOpts) (n : ℕ) (s : State) (xs : List Session)
      → SparesAll xs
      → WaitsForAck s
      → WaitsForAck (run_loop opts n s xs).state × All Silent (run_loop opts n s xs).effects
  run_loop-WaitsForAck opts n s xs h w =
      run_loop-Meets WaitsForAck Silent opts (λ d. not_ack _ refl) (λ h. not_ack _ refl)
        (λ r. not_ack _ refl) (λ r. not_ack _ refl) (not_ack _ refl)
        (start_heartbeat-Keeps opts (λ s w. w) (not_ack _ refl)) SparesMsg (other_msg opts) n s xs h
        w

  pub ack_notifies :
      (opts : ClientOpts) (c : Option ℕ) (up : Up) (s : State)
      → WaitsForAck s
      → up (Channel.ack tx) ≡ true
      → handle_msg opts
          (Msg.relay_response (ResponseMsg.ack (record { seq = seq; subscriber_count = c })))
          up
          s
        ≡ record {
          state = record s { pending_acks = HashMap.remove ℕ_discrete seq s.pending_acks };
          effects = Effect.to_ack tx ∷ [];
          result = ok tt;
        }
  unfolding handle_msg
  ack_notifies opts c up s w u = rw (w.held, handle_ack, notify) (rw u)

-- An `AtLeastOnce` send is confirmed exactly by its ack. From `WaitForAck` with a fresh ack
-- channel on, over any rounds of any number of connections in which nothing else concerns the
-- sequence number or the channel, the channel gets nothing; then the server's `Ack` of the number,
-- with the sender still waiting, puts exactly one value on the channel and clears the entry.
pub ack_confirms :
    (opts : ClientOpts) (seq : Seq) (m : SendMessage) (tx : Sender) (up up' : Up) (n : ℕ)
    (s : State) (xs : List Session) (c : Option ℕ)
    → Unused ℕ_discrete tx s.pending_acks
    → SparesAll seq m tx xs
    → up' (Channel.ack tx) ≡ true
    → let r = run_loop opts n (handle_msg opts (Msg.wait_for_ack m tx seq) up s).state xs in
      let d =
        handle_msg opts
          (Msg.relay_response (ResponseMsg.ack (record { seq = seq; subscriber_count = c })))
          up'
          r.state in
      All (Silent seq m tx) r.effects
      × (d.effects ≡ Effect.to_ack tx ∷ [])
      × (d.result ≡ ok tt)
      × (HashMap.get ℕ_discrete seq d.state.pending_acks ≡ none)
unfolding handle_msg
ack_confirms opts seq m tx up up' n s xs c fresh h u =
    let s' = (handle_msg opts (Msg.wait_for_ack m tx seq) up s).state in
    let (w, q) =
      run_loop-WaitsForAck seq m tx opts n s' xs h
        (insert-Waits ℕ_discrete s.pending_acks seq m tx fresh) in
    let e = ack_notifies seq m tx opts c up' (run_loop opts n s' xs).state w u in
    (
      q,
      ap (λ d. d.effects) e,
      ap (λ d. d.result) e,
      ap (λ d. HashMap.get ℕ_discrete seq d.state.pending_acks) e
          ∙ get-remove_self ℕ_discrete seq _,
    )
