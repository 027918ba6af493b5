-- ===== src/Server/Routing.antt =====
-- Which stream of the server of test-utils/src/lib.rs gets a payload.
use orb_relay_messages.Common.{
  if◌then◌else◌, ◌≡◌, ◌≢◌, refl, ap, ◌∙◌, Bool, true, Option, none, some, List, [], ◌∷◌,
}
use orb_relay_messages.Common.Bytes.{Bytes-discrete}
use orb_relay_messages.Common.HashMap
use orb_relay_messages.Common.Outcome.{Outcome, ok, err, panic}
use orb_relay_messages.Relay.{Entity, RelayPayload, RequestMsg}
use orb_relay_messages.Client.{Sender}
use orb_relay_messages.Server.{
  ok, Cmd, ConnectedClients, entity_key, Job, command, perform, Handler, World, enter, answered,
  on_request, cut_off_at, Turn, is_gone, outlived, Yield, yields,
}

module _ {S : Type 0} (handler : Handler S) where
  outlived-clients : (tx : Sender) (w : World S) (y : Yield) → (outlived tx w y).clients ≡ w.clients
  unfolding outlived
  outlived-clients tx w (Yield.item r) = refl
  outlived-clients tx w Yield.nothing = refl
  outlived-clients tx w Yield.ends = refl
  outlived-clients tx w Yield.panics = refl

  -- A request changes the clients as one that is cut off behind its entry.
  pub request-clients :
      (tx : Sender) (m : RequestMsg) (w : World S)
      → (on_request handler tx m w).0.clients ≡ cut_off_at true (enter tx m w.clients) w.clients
  unfolding on_request answered cut_off_at
  request-clients tx m w = go (enter tx m w.clients)
    where
      go :
          (o : Outcome (Unit {0}) ConnectedClients)
          → (outlived tx (answered handler m w o).0 (answered handler m w o).1).clients
            ≡ cut_off_at true o w.clients
      go (ok clients) = outlived-clients tx _ (yields (handler w.state m clients).1.0)
      go (err e) = outlived-clients tx w Yield.panics
      go panic = outlived-clients tx w Yield.panics

module _ (entity : Entity) where
  abbrev OtherEntity : Option Entity → Type 0
  OtherEntity none = Unit {0}
  OtherEntity (some e) = entity_key entity ≢ entity_key e

  abbrev OtherRequest : RequestMsg → Type 0
  OtherRequest (RequestMsg.connect_request r) = OtherEntity r.client_id
  OtherRequest _ = Unit {0}

  -- No request to connect under the key of the entity.
  abbrev pub OtherTurn : Turn → Type 0
  OtherTurn (Turn.request tx m) = OtherRequest m
  OtherTurn (Turn.cut_off tx m entered) = OtherRequest m
  OtherTurn (Turn.broken tx) = Unit {0}
  OtherTurn (Turn.terminated tx) = Unit {0}
  OtherTurn (Turn.task j) = Unit {0}

  module _ {S : Type 0} (handler : Handler S) (tx : Sender) where
    abbrev Entered : World S → Type 0
    Entered w = HashMap.get Bytes-discrete (entity_key entity) w.clients ≡ some tx

    -- What is left of a request that is cut off.
    abbrev cut : Bool → Sender → RequestMsg → World S → World S
    cut entered tx' m w = record w {
      clients = cut_off_at entered (enter tx' m w.clients) w.clients;
    }

pub performed :
    (p : RelayPayload) (entity : Entity) (tx : Sender) (gone : List Sender)
    (clients : ConnectedClients)
    → p.dst ≡ some entity
    → HashMap.get Bytes-discrete (entity_key entity) clients ≡ some tx
    → perform gone (Job.send p) clients ≡ (if is_gone tx gone then [] else (tx, Cmd.send p) ∷ [])
unfolding perform command
performed p entity tx gone clients d h =
    ap
      (λ (o : Option Entity). elim o [
        | none ↦ []
        | some dst ↦ command gone (Cmd.send p) (HashMap.get Bytes-discrete (entity_key dst) clients)
      ])
      d
    ∙ ap (command gone (Cmd.send p)) h
