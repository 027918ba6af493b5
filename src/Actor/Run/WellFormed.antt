-- ===== src/Actor/Run/WellFormed.antt =====
-- What always holds of the tables of `State` in relay-client/src/actor.rs.
use orb_relay_messages.Common.{ℕ, ◌≡◌, ◌≢◌, refl, none, some, List, [], ◌∷◌, All, ℕ_discrete, ite}
use orb_relay_messages.Common.HashMap
use orb_relay_messages.Common.HashMap.{HashMap}
use orb_relay_messages.Relay.{ResponseMsg}
use orb_relay_messages.Client.{ClientId, Seq, Sender, SendMessage, ClientOpts}
use orb_relay_messages.Actor.Defs.{State, Msg, Effect, ReplyKey-discrete}
use orb_relay_messages.Actor.Handler.{ask_retries, handle_msg}
use orb_relay_messages.Actor.Keeps.{
  Keeps, bind-Keeps, pure-Keeps, raise-Keeps, modify-Keeps, later-Keeps, send_or-Keeps,
}
use orb_relay_messages.Actor.Handler.Keeps.{
  retry_ack-Keeps, retry_ask-Keeps, heartbeat-Keeps, start_heartbeat-Keeps, handle_ack-Keeps,
  handle_relay_payload-Keeps,
}
use orb_relay_messages.Actor.Pending.{Entry}
use orb_relay_messages.Actor.Run.{Session, run_loop}
use orb_relay_messages.Actor.Run.Keeps.{OkReceived, OkInputs, OkSessions, run_loop-Meets}
use orb_relay_messages.Actor.Session.{Received, StreamItem, Input}

module _ {K V : Type 0} where
  abbrev Without : K → HashMap K V → Type 0
  Without k = All (λ e. e.0 ≢ k)

  -- No key stands twice.
  abbrev pub Unique : HashMap K V → Type 0
  Unique [] = Unit {0}
  Unique (e ∷ t) = Without e.0 t × Unique t

  module _ (dec : Discrete K) where
    remove-All :
        (P : K × V → Type 0) (k : K) (t : HashMap K V) → All P t → All P (HashMap.remove dec k t)
    unfolding HashMap.remove
    remove-All P k [] h = tt
    remove-All P k ((j, v) ∷ t) h =
        let rest = remove-All P k t h.1 in
        elim (dec j k)
          as (λ d. All P (ite d (HashMap.remove dec k t) ((j, v) ∷ HashMap.remove dec k t))) [
            | yes same ↦ rest
            | no other ↦ (h.0, rest)
          ]

    remove-Without : (k : K) (t : HashMap K V) → Without k (HashMap.remove dec k t)
    unfolding HashMap.remove
    remove-Without k [] = tt
    remove-Without k ((j, v) ∷ t) =
        let rest = remove-Without k t in
        elim (dec j k)
          as (λ d. Without k (ite d (HashMap.remove dec k t) ((j, v) ∷ HashMap.remove dec k t))) [
            | yes same ↦ rest
            | no other ↦ (other, rest)
          ]

    remove-Unique : (k : K) (t : HashMap K V) → Unique t → Unique (HashMap.remove dec k t)
    unfolding HashMap.remove
    remove-Unique k [] h = tt
    remove-Unique k ((j, v) ∷ t) h =
        let rest = remove-Unique k t h.1 in
        elim (dec j k)
          as (λ d. Unique (ite d (HashMap.remove dec k t) ((j, v) ∷ HashMap.remove dec k t))) [
            | yes same ↦ rest
            | no other ↦ (remove-All (λ e. e.0 ≢ j) k t h.0, rest)
          ]

    insert-Unique : (k : K) (v : V) (t : HashMap K V) → Unique t → Unique (HashMap.insert dec k v t)
    unfolding HashMap.insert
    insert-Unique k v t h = (remove-Without k t, remove-Unique k t h)

-- A question waits under the client that it went to.
abbrev pub IsTargeted : (ClientId × Seq) × Entry → Type 0
IsTargeted e = e.0.0 ≡ e.1.0.target_id

pub record IsWellFormed (s : State) : Type 0 where
  pub acks : Unique s.pending_acks
  pub replies : Unique s.pending_replies
  pub targets : All IsTargeted s.pending_replies

abbrev AnyEffect : Effect → Type 0
AnyEffect e = Unit {0}

removed_ack :
    (s : State) (k : Seq)
    → IsWellFormed s
    → IsWellFormed (record s { pending_acks = HashMap.remove ℕ_discrete k s.pending_acks })
removed_ack s k w = record {
  acks = remove-Unique ℕ_discrete k s.pending_acks w.acks;
  replies = w.replies;
  targets = w.targets;
}

removed_reply :
    (s : State) (k : ClientId × Seq)
    → IsWellFormed s
    → IsWellFormed
        (record s { pending_replies = HashMap.remove ReplyKey-discrete k s.pending_replies })
removed_reply s k w = record {
  acks = w.acks;
  replies = remove-Unique ReplyKey-discrete k s.pending_replies w.replies;
  targets = remove-All ReplyKey-discrete IsTargeted k s.pending_replies w.targets;
}

inserted :
    (s : State) (m : SendMessage) (tx : Sender) (k : Seq)
    → IsWellFormed s
    → All IsTargeted (HashMap.insert ReplyKey-discrete (m.target_id, k) (m, tx) s.pending_replies)
unfolding HashMap.insert
inserted s m tx k w =
    (refl, remove-All ReplyKey-discrete IsTargeted (m.target_id, k) s.pending_replies w.targets)

handle_msg-Keeps :
    (opts : ClientOpts) (msg : Msg) → Keeps IsWellFormed AnyEffect (handle_msg opts msg)
unfolding handle_msg
handle_msg-Keeps opts (Msg.relay_response (ResponseMsg.ack a)) =
    handle_ack-Keeps removed_ack (λ t. tt) a.seq
handle_msg-Keeps opts (Msg.relay_response (ResponseMsg.payload p)) =
    handle_relay_payload-Keeps removed_reply (λ r. tt) (λ t r. tt) p.payload p.src p.seq
handle_msg-Keeps opts (Msg.relay_response (ResponseMsg.connect_response c)) = pure-Keeps tt
handle_msg-Keeps opts (Msg.send r) = send_or-Keeps _ _ _ tt
handle_msg-Keeps opts (Msg.wait_for_ack m tx k) =
    bind-Keeps
      (modify-Keeps _ (λ s w. record {
        acks = insert-Unique ℕ_discrete k (m, tx) s.pending_acks w.acks;
        replies = w.replies;
        targets = w.targets;
      }))
      (λ _. later-Keeps opts.ack_timeout (Msg.retry_ack k opts.max_message_attempts) tt)
handle_msg-Keeps opts (Msg.wait_for_reply m tx k) =
    bind-Keeps
      (modify-Keeps _ (λ s w. record {
        acks = w.acks;
        replies =
            insert-Unique ReplyKey-discrete (m.target_id, k) (m, tx) s.pending_replies w.replies;
        targets = inserted s m tx k w;
      }))
      (λ _.
        later-Keeps opts.reply_timeout (Msg.retry_ask m.target_id k (ask_retries opts m.qos)) tt)
handle_msg-Keeps opts (Msg.retry_ack k left) = retry_ack-Keeps opts (λ m k. tt) k left (λ a. tt)
handle_msg-Keeps opts (Msg.retry_ask c k left) = retry_ask-Keeps opts (λ m k. tt) c k left (λ a. tt)
handle_msg-Keeps opts Msg.stop = raise-Keeps _
handle_msg-Keeps opts Msg.heartbeat = heartbeat-Keeps opts tt tt
handle_msg-Keeps opts Msg.reconnect = raise-Keeps _

abbrev AnyMsg : Msg → Type 0
AnyMsg m = Unit {0}

any_received : (r : Received) → OkReceived AnyMsg r
any_received (Received.from_actor msg) = tt
any_received Received.actor_closed = tt
any_received (Received.from_stream StreamItem.ended) = tt
any_received (Received.from_stream (StreamItem.status t)) = tt
any_received (Received.from_stream (StreamItem.message none)) = tt
any_received (Received.from_stream (StreamItem.message (some r))) = tt

any_inputs : (is : List Input) → OkInputs AnyMsg is
any_inputs [] = tt
any_inputs (i ∷ is) = (any_received i.received, any_inputs is)

any_sessions : (xs : List Session) → OkSessions AnyMsg xs
any_sessions [] = tt
any_sessions (x ∷ xs) = (any_inputs x.inputs, any_sessions xs)

-- The tables of waiting senders stay well-formed over any rounds of any number of connections,
-- whatever is received, in whatever order, and wherever a round fails: no number and no pair of a
-- client and a number stands twice, and a question waits under the client that it went to.
pub run_loop-IsWellFormed :
    (opts : ClientOpts) (n : ℕ) (s : State) (xs : List Session)
    → IsWellFormed s
    → IsWellFormed (run_loop opts n s xs).state
run_loop-IsWellFormed opts n s xs w =
    (run_loop-Meets IsWellFormed AnyEffect opts (λ d. tt) (λ h. tt) (λ r. tt) (λ r. tt) tt
      (start_heartbeat-Keeps opts
        (λ s w. record { acks = w.acks; replies = w.replies; targets = w.targets }) tt)
      AnyMsg (λ m _. handle_msg-Keeps opts m) n s xs (any_sessions xs) w).0
