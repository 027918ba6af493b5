-- ===== src/Actor/Spec/Shows.antt =====
-- The tables of `State` in relay-client/src/actor.rs as functions of their keys.
use orb_relay_messages.Common.{◌≡◌, ap, ◌∙◌, Option, none, some, ite, ℕ_discrete}
use orb_relay_messages.Common.HashMap
use orb_relay_messages.Common.HashMap.{
  HashMap, get-remove_self, get-remove_ne, get-insert_self, get-insert_ne,
}
use orb_relay_messages.Client.{ClientId, Seq}
use orb_relay_messages.Actor.Defs.{State, ReplyKey-discrete}
use orb_relay_messages.Actor.Spec.{Waiters, set, now_acked, now_replied}

-- The tables of the state show these waiters.
pub record Shows (s : State) (w : Waiters) : Type 0 where
  pub ack_at : (k : Seq) → HashMap.get ℕ_discrete k s.pending_acks ≡ w.for_ack k
  pub reply_at :
      (k : ClientId × Seq) → HashMap.get ReplyKey-discrete k s.pending_replies ≡ w.for_reply k
  pub beats : s.heartbeat_started ≡ w.beating

module _ {K V : Type 0} (dec : Discrete K) where
  get-remove :
      (k : K) (t : HashMap K V) (f : K → Option V)
      → ((j : K) → HashMap.get dec j t ≡ f j)
      → (j : K) → HashMap.get dec j (HashMap.remove dec k t) ≡ set dec k none f j
  get-remove k t f h j =
      elim (dec j k) as (λ d. HashMap.get dec j (HashMap.remove dec k t) ≡ ite d none (f j)) [
        | yes same ↦
            ap (λ i. HashMap.get dec i (HashMap.remove dec k t)) same ∙ get-remove_self dec k t
        | no other ↦ get-remove_ne dec k j t other ∙ h j
      ]

  pub get-insert :
      (k : K) (v : V) (t : HashMap K V) (f : K → Option V)
      → ((j : K) → HashMap.get dec j t ≡ f j)
      → (j : K) → HashMap.get dec j (HashMap.insert dec k v t) ≡ set dec k (some v) f j
  get-insert k v t f h j =
      elim (dec j k) as (λ d. HashMap.get dec j (HashMap.insert dec k v t) ≡ ite d (some v) (f j)) [
        | yes same ↦
            ap (λ i. HashMap.get dec i (HashMap.insert dec k v t)) same ∙ get-insert_self dec k v t
        | no other ↦ get-insert_ne dec k j v t other ∙ h j
      ]

pub removed_ack :
    (k : Seq) (s : State) (w : Waiters)
    → Shows s w
    → Shows (record s { pending_acks = HashMap.remove ℕ_discrete k s.pending_acks }) (now_acked k w)
removed_ack k s w h = record {
  ack_at = get-remove ℕ_discrete k s.pending_acks w.for_ack h.ack_at;
  reply_at = h.reply_at;
  beats = h.beats;
}

pub removed_reply :
    (k : ClientId × Seq) (s : State) (w : Waiters)
    → Shows s w
    → Shows
        (record s { pending_replies = HashMap.remove ReplyKey-discrete k s.pending_replies })
        (now_replied k w)
removed_reply k s w h = record {
  ack_at = h.ack_at;
  reply_at = get-remove ReplyKey-discrete k s.pending_replies w.for_reply h.reply_at;
  beats = h.beats;
}
