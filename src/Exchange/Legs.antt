-- ===== src/Exchange/Legs.antt =====
-- What one leg between two clients carries.
use orb_relay_messages.Common.{
  if◌then◌else◌, ℕ, ◌≡◌, refl, ap, ap₂, ◌∙◌, Option, none, some, List, [], ◌∷◌, ◌++◌, map, arith,
}
use orb_relay_messages.Common.Bytes.{Bytes-discrete}
use orb_relay_messages.Common.HashMap
use orb_relay_messages.Relay.{
  Entity, RelayPayload, RelayConnectRequest, RelayConnectResponse, RequestMsg, ResponseMsg,
  payload_into,
}
use orb_relay_messages.Common.Outcome.{ok}
use orb_relay_messages.Client.{Sender, ClientOpts}
use orb_relay_messages.Actor.Monad.{Up, continue}
use orb_relay_messages.Actor.Handler.{handle_msg}
use orb_relay_messages.Actor.Defs.{State, Msg, Effect}
use orb_relay_messages.Actor.Session.{StreamItem, receive, serve}
use orb_relay_messages.Forwarder.Connections.{rounds-deliver}
use orb_relay_messages.Server.{
  is_gone, yields, perform, outlived, Cmd, Job, Handler, World, turn, turns, entity_key, on_request,
  enter, answered, yielded, on_command,
}
use orb_relay_messages.Server.Routing.{performed}
use orb_relay_messages.Exchange.{tonic_queue, forwarded, request_turns, settle, leg, item, receives}

-- A handler that relays every payload, and answers it with nothing.
pub record IsRelay {S : Type 0} (handler : Handler S) : Type 0 where
  pub answer :
      (s : S) (p : RelayPayload) (clients : HashMap.HashMap (List ℕ) Sender)
      → (handler s (RequestMsg.payload p) clients).1 ≡ (none, Job.send p ∷ [])

-- Nothing is under way in the server.
pub record IsIdle {S : Type 0} (w : World S) : Type 0 where
  pub no_jobs : w.jobs ≡ []
  pub no_commands : w.commands ≡ []
  pub all_open : w.gone ≡ []

pub forwarded_all : (q : List RelayConnectRequest) → forwarded q ≡ q
unfolding forwarded
forwarded_all q = ap (λ l. l.taken) (rounds-deliver 4 q (omega arith))

module _ {S : Type 0} (handler : Handler S) (relays : IsRelay handler) where
  abbrev state_after : RelayPayload → World S → S
  state_after p w = (handler w.state (RequestMsg.payload p) w.clients).0

  handled :
      (tx : Sender) (p : RelayPayload) (w : World S)
      → (on_request handler tx (RequestMsg.payload p) w).0
        ≡ record w { state = state_after p w; jobs = w.jobs ++ Job.send p ∷ [] }
  unfolding on_request enter answered outlived yields
  handled tx p w =
      ap
        (λ (x : Option RelayConnectResponse × List Job).
          outlived tx (record w { state = state_after p w; jobs = w.jobs ++ x.1 }) (yields x.0))
        (relays.answer w.state p w.clients)

  requested :
      (tx : Sender) (p : RelayPayload) (w : World S)
      → w.gone ≡ []
      → turns handler (request_turns tx (payload_into p ∷ [])) w
        ≡ record w { state = state_after p w; jobs = w.jobs ++ Job.send p ∷ [] }
  unfolding turns turn
  requested tx p w open_all =
      ap (λ gs. if is_gone tx gs then w else (on_request handler tx (RequestMsg.payload p) w).0)
        open_all
      ∙ handled tx p w

  abbrev world_after : RelayPayload → Sender → World S → World S
  world_after p to w = record {
    state = state_after p w;
    clients = w.clients;
    jobs = [];
    commands = (to, Cmd.send p) ∷ [];
    gone = [];
  }

  settled :
      (tx to : Sender) (p : RelayPayload) (dst : Entity) (w : World S)
      → p.dst ≡ some dst
      → HashMap.get Bytes-discrete (entity_key dst) w.clients ≡ some to
      → IsIdle w
      → settle handler (turns handler (request_turns tx (payload_into p ∷ [])) w)
        ≡ world_after p to w
  unfolding settle turns turn
  settled tx to p dst w d c i =
      ap (settle handler) (requested tx p w i.all_open)
      ∙ ap
          (λ js.
            settle handler (record w { state = state_after p w; jobs = js ++ Job.send p ∷ [] }))
          i.no_jobs
      ∙ ap
          (λ gs. record (world_after p to w) {
            commands = w.commands ++ perform gs (Job.send p) w.clients;
            gone = gs;
          })
          i.all_open
      ∙ ap (λ cs. record (world_after p to w) { commands = cs })
          (ap₂ ◌++◌ i.no_commands (performed p dst to [] w.clients d c))

  only_item :
      (to : Sender) (p : RelayPayload)
      → yielded to ((to, Cmd.send p) ∷ []) ≡ record { msg = some (ResponseMsg.payload p) } ∷ []
  unfolding yielded on_command
  only_item to p = ground arith

  -- Exactly one payload, to an entity that is connected: its stream gets the payload and nothing
  -- else, the server is idle again, and the connected clients are as before.
  pub leg_lem :
      (tx to : Sender) (es : List Effect) (p : RelayPayload) (dst : Entity) (w : World S)
      → tonic_queue es ≡ payload_into p ∷ []
      → p.dst ≡ some dst
      → HashMap.get Bytes-discrete (entity_key dst) w.clients ≡ some to
      → IsIdle w
      → ((leg handler tx to es w).0 ≡ StreamItem.message (some (ResponseMsg.payload p)) ∷ [])
        × IsIdle (leg handler tx to es w).1
        × ((leg handler tx to es w).1.clients ≡ w.clients)
  unfolding leg
  leg_lem tx to es p dst w e d c i =
      let arrived =
        ap (λ q. settle handler (turns handler (request_turns tx q) w))
          (forwarded_all (tonic_queue es) ∙ e)
        ∙ settled tx to p dst w d c i in
      (
        ap (λ v. map item (yielded to v.commands)) arrived ∙ ap (map item) (only_item to p),
        record {
          no_jobs = ap (λ v. v.jobs) arrived;
          no_commands = refl;
          all_open = ap (λ v. v.gone) arrived;
        },
        ap (λ v. v.clients) arrived,
      )

-- One response from the stream.
pub received_one :
    (opts : ClientOpts) (up : Up) (r : ResponseMsg) (s : State)
    → let d = handle_msg opts (Msg.relay_response r) up s in
      d.result ≡ ok tt
      → receives opts up (StreamItem.message (some r) ∷ []) s
        ≡ record d { effects = d.effects ++ []; result = ok tt }
unfolding serve receive
received_one opts up r s e =
    let d = handle_msg opts (Msg.relay_response r) up s in
    ap (λ x. continue up d.state d.effects (λ _. serve opts []) x) e
