-- ===== src/Server/Delivery.antt =====
-- To which streams the server of test-utils/src/lib.rs gives payloads at all.
use orb_relay_messages.Common.{
  if◌then◌else◌, none≢some, ◌≡◌, refl, sym, ap, ◌∙◌, subst, Bool, true, false, Option, none, some,
  List, [], ◌∷◌, All, All-append,
}
use orb_relay_messages.Common.Bytes.{Text, Bytes-discrete}
use orb_relay_messages.Common.Outcome.{Outcome, ok, err, panic}
use orb_relay_messages.Common.HashMap
use orb_relay_messages.Common.HashMap.{get-insert_self, get-insert_ne}
use orb_relay_messages.Relay.{Entity, RelayPayload, ConnectRequest, RequestMsg}
use orb_relay_messages.Client.{Sender}
use orb_relay_messages.Server.{
  Cmd, ConnectedClients, entity_key, insert, Job, command, perform, Handler, World, enter, answered,
  on_request, cut_off_at, Turn, turn, turns, new, is_gone, has_terminate, over, outlived, Yield,
}

same_sender : {tx tx' : Sender} → some tx ≡ some tx' → tx ≡ tx'
same_sender e = cc

-- `P key tx` for a stream `tx` on which a client connects under the key, `Q` for what tasks do.
module _ (P : Text → Sender → Type 0) (Q : Job → Type 0) where
  abbrev ConnectsAs : Sender → Option Entity → Type 0
  ConnectsAs tx none = Unit {0}
  ConnectsAs tx (some e) = P (entity_key e) tx

  abbrev Connects : Sender → RequestMsg → Type 0
  Connects tx (RequestMsg.connect_request r) = ConnectsAs tx r.client_id
  Connects tx _ = Unit {0}

  abbrev pub Records : Turn → Type 0
  Records (Turn.request tx m) = Connects tx m
  Records (Turn.cut_off tx m entered) = Connects tx m
  Records (Turn.broken tx) = Unit {0}
  Records (Turn.terminated tx) = Unit {0}
  Records (Turn.task j) = Q j

  -- A command that a task has sent, for a stream that connected under the key of the entity that the
  -- task is about.
  abbrev pub IsAddressed : Sender × Cmd → Type 0
  IsAddressed (tx, Cmd.send p) =
      Q (Job.send p) × ((dst : Entity) × (p.dst ≡ some dst) × P (entity_key dst) tx)
  IsAddressed (tx, Cmd.terminate) = (e : Entity) × Q (Job.stop e) × P (entity_key e) tx

  abbrev Known : ConnectedClients → Type 0
  Known clients =
      (key : Text) (tx : Sender) → HashMap.get Bytes-discrete key clients ≡ some tx → P key tx

  abbrev KnownAfter : Outcome (Unit {0}) ConnectedClients → Type 0
  KnownAfter (ok clients) = Known clients
  KnownAfter _ = Unit {0}

  insert-Known :
      (e : Entity) (tx : Sender) (clients : ConnectedClients)
      → P (entity_key e) tx
      → Known clients
      → Known (insert e tx clients)
  unfolding insert
  insert-Known e tx clients p k key tx' h = elim (Bytes-discrete key (entity_key e)) [
    | yes same ↦
        let at_key = ap (λ i. HashMap.get Bytes-discrete i (insert e tx clients)) same in
        let found = get-insert_self Bytes-discrete (entity_key e) tx clients in
        subst (λ i. P i tx') (sym same)
          (subst (P (entity_key e)) (same_sender (sym found ∙ sym at_key ∙ h)) p)
    | no other ↦
        k key tx' (sym (get-insert_ne Bytes-discrete (entity_key e) key tx clients other) ∙ h)
  ]

  connect-KnownAfter :
      (tx : Sender) (r : ConnectRequest) (c : Option Entity) (clients : ConnectedClients)
      → r.client_id ≡ c
      → ConnectsAs tx c
      → Known clients
      → KnownAfter (enter tx (RequestMsg.connect_request r) clients)
  unfolding enter
  connect-KnownAfter tx r none clients e p k = rw e tt
  connect-KnownAfter tx r (some d) clients e p k = rw e (insert-Known d tx clients p k)

  enter-KnownAfter :
      (tx : Sender) (m : RequestMsg) (clients : ConnectedClients)
      → Connects tx m
      → Known clients
      → KnownAfter (enter tx m clients)
  unfolding enter
  enter-KnownAfter tx (RequestMsg.connect_request r) clients p k =
      connect-KnownAfter tx r r.client_id clients refl p k
  enter-KnownAfter tx (RequestMsg.heartbeat h) clients p k = k
  enter-KnownAfter tx (RequestMsg.payload q) clients p k = k

  command-IsAddressed :
      (gone : List Sender) (c : Cmd) (o : Option Sender)
      → ((tx : Sender) → o ≡ some tx → IsAddressed (tx, c))
      → All IsAddressed (command gone c o)
  unfolding command
  command-IsAddressed gone c none h = tt
  command-IsAddressed gone c (some tx) h = go (is_gone tx gone)
    where
      go : (b : Bool) → All IsAddressed (if b then [] else (tx, c) ∷ [])
      go true = tt
      go false = (h tx refl, tt)

  send-IsAddressed :
      (gone : List Sender) (p : RelayPayload) (o : Option Entity) (clients : ConnectedClients)
      → p.dst ≡ o
      → Q (Job.send p)
      → Known clients
      → All IsAddressed (perform gone (Job.send p) clients)
  unfolding perform
  send-IsAddressed gone p none clients e q k = rw e tt
  send-IsAddressed gone p (some dst) clients e q k =
      rw e
        (command-IsAddressed gone (Cmd.send p) _ (λ tx h. (q, (dst, e, k (entity_key dst) tx h))))

  perform-IsAddressed :
      (gone : List Sender) (j : Job) (clients : ConnectedClients)
      → Q j
      → Known clients
      → All IsAddressed (perform gone j clients)
  unfolding perform
  perform-IsAddressed gone (Job.send p) clients q k = send-IsAddressed gone p p.dst clients refl q k
  perform-IsAddressed gone (Job.stop e) clients q k =
      command-IsAddressed gone Cmd.terminate _ (λ tx h. (e, q, k (entity_key e) tx h))

  module _ {S : Type 0} (handler : Handler S) where
    abbrev IsSound : World S → Type 0
    IsSound w = Known w.clients × All IsAddressed w.commands

    answered-IsSound :
        (m : RequestMsg) (w : World S) (o : Outcome (Unit {0}) ConnectedClients)
        → KnownAfter o
        → IsSound w
        → IsSound (answered handler m w o).0
    unfolding answered
    answered-IsSound m w (ok clients) k s = (k, s.1)
    answered-IsSound m w (err e) k s = s
    answered-IsSound m w panic k s = s

    cut_off-Known :
        (entered : Bool) (o : Outcome (Unit {0}) ConnectedClients) (clients : ConnectedClients)
        → KnownAfter o
        → Known clients
        → Known (cut_off_at entered o clients)
    unfolding cut_off_at
    cut_off-Known true (ok c) clients k h = k
    cut_off-Known true (err e) clients k h = h
    cut_off-Known true panic clients k h = h
    cut_off-Known false o clients k h = h

    outlived-IsSound :
        (tx : Sender) (w : World S) (y : Yield) → IsSound w → IsSound (outlived tx w y)
    unfolding outlived
    outlived-IsSound tx w (Yield.item r) s = s
    outlived-IsSound tx w Yield.nothing s = s
    outlived-IsSound tx w Yield.ends s = s
    outlived-IsSound tx w Yield.panics s = s

    if-IsSound : (b : Bool) (v w : World S) → IsSound v → IsSound w → IsSound (if b then v else w)
    if-IsSound true v w s k = s
    if-IsSound false v w s k = k

    turn-IsSound : (t : Turn) (w : World S) → Records t → IsSound w → IsSound (turn handler t w)
    unfolding turn on_request
    turn-IsSound (Turn.request tx m) w r s =
        let (v, y) = answered handler m w (enter tx m w.clients) in
        if-IsSound (is_gone tx w.gone) w _ s (
          outlived-IsSound tx v y
            (answered-IsSound m w (enter tx m w.clients) (enter-KnownAfter tx m w.clients r s.0) s))
    turn-IsSound (Turn.cut_off tx m entered) w r s = if-IsSound (is_gone tx w.gone) w _ s (
      cut_off-Known entered (enter tx m w.clients) w.clients (enter-KnownAfter tx m w.clients r s.0)
          s.0,
      s.1,
    )
    turn-IsSound (Turn.broken tx) w r s = s
    turn-IsSound (Turn.terminated tx) w r s =
        if-IsSound (has_terminate tx w.commands) (over tx w) w s s
    turn-IsSound (Turn.task j) w r s =
        (s.0, All-append IsAddressed _ _ s.1 (perform-IsAddressed w.gone j w.clients r s.0))

    turns-IsSound :
        (ts : List Turn) (w : World S) → All Records ts → IsSound w → IsSound (turns handler ts w)
    unfolding turns
    turns-IsSound [] w r s = s
    turns-IsSound (t ∷ ts) w r s = turns-IsSound ts (turn handler t w) r.1 (turn-IsSound t w r.0 s)

    -- No payload goes astray: whatever the handler does, and in whatever order streams and tasks get
    -- their turns, a new server puts a payload on the channel of a stream only if a task of `send` for
    -- that payload ran and a client connected on that stream under the key of the payload's
    -- destination, and a `Terminate` only if a task of `stop` ran for an entity under whose key a
    -- client connected on that stream. This is said for any `P` that holds of all pairs of a key and a
    -- stream that connect, and any `Q` that holds of all that the tasks do.
    pub commands-IsAddressed :
        (state : S) (ts : List Turn)
        → All Records ts
        → All IsAddressed (turns handler ts (new state)).commands
    unfolding new HashMap.get
    commands-IsAddressed state ts r =
        (turns-IsSound ts (new state) r ((λ key tx h. absurd (none≢some h)), tt)).1
