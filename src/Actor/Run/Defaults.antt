-- ===== src/Actor/Run/Defaults.antt =====
-- The actor of relay-client/src/actor.rs under the defaults of the builders in
-- relay-client/src/lib.rs.
use orb_relay_messages.Common.{ℕ, ◌≡◌, ◌≢◌, ◌∙◌, ap, refl, true, none, some, ℕ_discrete, List}
use orb_relay_messages.Common.Bytes.{Bytes, Text}
use orb_relay_messages.Common.HashMap
use orb_relay_messages.Relay.{EntityType}
use orb_relay_messages.Client.{
  Seq, Sender, SendMessage, Auth, Err, Settings, ClientOpts, entity, to,
}
use orb_relay_messages.Actor.Defs.{State, Msg, Channel, ReplyKey-discrete}
use orb_relay_messages.Actor.Monad.{Up}
use orb_relay_messages.Actor.Handler.{ask_retries}
use orb_relay_messages.Actor.Handler.Retries.{follow, retransmissions, ack_retries, ask_retries_lem}
use orb_relay_messages.Actor.Run.{Session, Ending, run_loop}
use orb_relay_messages.Actor.Run.Stops.{run_loop-ne-failed}

module _ (kind : EntityType) (id namespace endpoint : Text) (auth : Auth) (set : Settings) where
  abbrev pub built : ClientOpts
  built = entity kind id namespace endpoint auth set

  -- A client whose builder was given no limits never gives up: no failure ends its task, and as long
  -- as a message waits for its ack and the connection is up, every round of the ack timer sends it
  -- again. A question whose builder was given no QoS is never sent again.
  pub default_client :
      (target : EntityType) (target_id target_namespace : Text) (payload : Bytes) (m : SendMessage)
      (tx tx' : Sender) (seq seq' : Seq) (k n : ℕ) (up : Up) (s : State) (xs : List Session)
      (e : Err)
      → set.max_connection_attempts ≡ none
      → set.max_message_attempts ≡ none
      → up Channel.tonic ≡ true
      → HashMap.get ℕ_discrete seq s.pending_acks ≡ some (m, tx)
      → HashMap.get ReplyKey-discrete (target_id, seq') s.pending_replies
        ≡ some (to target target_id target_namespace none payload, tx')
      → ((run_loop built n s xs).ending ≢ Ending.failed e)
        × (follow built up k s (some (Msg.retry_ack seq built.max_message_attempts)) ≡ (k, s))
        × (follow built up k s (
              some (
                Msg.retry_ask target_id seq'
                  (ask_retries built (to target target_id target_namespace none payload).qos)))
            ≡ (0, s))
  unfolding entity to
  default_client target target_id target_namespace payload m tx tx' seq seq' k n up s xs e c a u
        held asked =
      let unlimited : retransmissions built.max_message_attempts k ≡ k = rw a refl in
      (
        run_loop-ne-failed built n s xs e (rw c),
        ack_retries built up s m tx seq k u held ∙ ap (λ (j : ℕ). (j, s)) unlimited,
        ask_retries_lem built up s (to target target_id target_namespace none payload) tx' seq' k u
            asked,
      )
