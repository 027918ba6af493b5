-- ===== src/Actor/Pending.antt =====
-- A table of waiting senders: `pending_acks` and `pending_replies` of relay-client/src/actor.rs,
-- over any key.
use orb_relay_messages.Common.{none≢some, ◌≡◌, ◌≢◌, sym, ◌∙◌, Option, none, some}
use orb_relay_messages.Common.HashMap
use orb_relay_messages.Common.HashMap.{
  HashMap, get-remove_self, get-remove_ne, get-insert_self, get-insert_ne,
}
use orb_relay_messages.Client.{Sender, SendMessage}

abbrev pub Entry : Type 0
Entry = SendMessage × Sender

same_entry :
    {m m' : SendMessage} {tx tx' : Sender}
    → ◌≡◌ {A = Option Entry} (some (m, tx)) (some (m', tx'))
    → tx ≡ tx'
same_entry e = cc

module _ {K : Type 0} (dec : Discrete K) where
  -- The sender on `tx` waits under `key`, and under no other key.
  pub record Waits (key : K) (m : SendMessage) (tx : Sender) (t : HashMap K Entry) : Type 0 where
    pub held : HashMap.get dec key t ≡ some (m, tx)
    pub only : (k : K) (m' : SendMessage) → HashMap.get dec k t ≡ some (m', tx) → k ≡ key

  -- No entry uses `tx`.
  abbrev pub Unused : Sender → HashMap K Entry → Type 0
  Unused tx t = (k : K) (m' : SendMessage) → HashMap.get dec k t ≢ some (m', tx)

  pub insert-Waits :
      (t : HashMap K Entry) (key : K) (m : SendMessage) (tx : Sender)
      → Unused tx t
      → Waits key m tx (HashMap.insert dec key (m, tx) t)
  insert-Waits t key m tx u = record {
    held = get-insert_self dec key (m, tx) t;
    only = λ k m' e. elim (dec k key) [
      | yes same ↦ same
      | no other ↦ absurd (u k m' (sym (get-insert_ne dec key k (m, tx) t other) ∙ e))
    ];
  }

  pub removed-Unused :
      (t : HashMap K Entry) (k : K) (tx : Sender) → Unused tx t → Unused tx (HashMap.remove dec k t)
  removed-Unused t k tx u j m e = elim (dec j k) [
    | yes same ↦ none≢some (sym (gone same) ∙ e)
    | no other ↦ u j m (sym (get-remove_ne dec k j t other) ∙ e)
  ]
    where
      gone : j ≡ k → HashMap.get dec j (HashMap.remove dec k t) ≡ none
      gone same = rw same (get-remove_self dec k t)

  module _ {key : K} {m : SendMessage} {tx : Sender} where
    pub removed-Waits :
        {t : HashMap K Entry} (k : K)
        → k ≢ key
        → Waits key m tx t
        → Waits key m tx (HashMap.remove dec k t)
    removed-Waits {t} k n w = record {
      held = get-remove_ne dec k key t (λ e. n (sym e)) ∙ w.held;
      only = λ k' m' e. elim (dec k' k) [
        | yes same ↦ absurd (none≢some (sym (gone k' same) ∙ e))
        | no other ↦ w.only k' m' (sym (get-remove_ne dec k k' t other) ∙ e)
      ];
    }
      where
        gone : (k' : K) → k' ≡ k → HashMap.get dec k' (HashMap.remove dec k t) ≡ none
        gone k' same = rw same (get-remove_self dec k t)

    pub inserted-Waits :
        {t : HashMap K Entry} (k : K) (m' : SendMessage) (tx' : Sender)
        → k ≢ key
        → tx' ≢ tx
        → Waits key m tx t
        → Waits key m tx (HashMap.insert dec k (m', tx') t)
    inserted-Waits {t} k m' tx' n x w = record {
      held = get-insert_ne dec k key (m', tx') t (λ e. n (sym e)) ∙ w.held;
      only = λ k' m'' e. elim (dec k' k) [
        | yes same ↦ absurd (x (same_entry (sym (put k' same) ∙ e)))
        | no other ↦ w.only k' m'' (sym (get-insert_ne dec k k' (m', tx') t other) ∙ e)
      ];
    }
      where
        put :
            (k' : K)
            → k' ≡ k
            → HashMap.get dec k' (HashMap.insert dec k (m', tx') t) ≡ some (m', tx')
        put k' same = rw same (get-insert_self dec k (m', tx') t)

    pub evicts :
        {t : HashMap K Entry} (m' : SendMessage) (tx' : Sender)
        → tx' ≢ tx
        → Waits key m tx t
        → Unused tx (HashMap.insert dec key (m', tx') t)
    evicts {t} m' tx' n w k m'' e = elim (dec k key) [
      | yes same ↦ n (same_entry (sym (put same) ∙ e))
      | no other ↦ other (w.only k m'' (sym (get-insert_ne dec key k (m', tx') t other) ∙ e))
    ]
      where
        put : k ≡ key → HashMap.get dec k (HashMap.insert dec key (m', tx') t) ≡ some (m', tx')
        put same = rw same (get-insert_self dec key (m', tx') t)

    -- What is found under another key is another sender.
    pub other_tx :
        {t : HashMap K Entry} (k : K)
        → k ≢ key
        → Waits key m tx t
        → (m' : SendMessage) (tx' : Sender) → HashMap.get dec k t ≡ some (m', tx')
        → tx' ≢ tx
    other_tx k n w m' tx' e x = n (w.only k m' (e ∙ rw x))
