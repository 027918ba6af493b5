-- ===== src/Tests/Calls.antt =====
-- The calls of relay-client/src/lib.rs on concrete messages.
use orb_relay_messages.Common.{◌-◌, ◌≡◌, none, List, [], ◌∷◌, arith}
use orb_relay_messages.Common.Bytes.{bytes, u64_mod}
use orb_relay_messages.Relay.{EntityType}
use orb_relay_messages.Client.{QoS}
use orb_relay_messages.Api.{Client}
use orb_relay_messages.Api.Numbers.{
  Request, numbers, issue, payload_numbers, wait_numbers, issue_numbers, AllDistinct,
  numbers-AllDistinct,
}
use orb_relay_messages.Tests.Fixtures.{three, message, question}

abbrev pub asker : Client
asker = record { opts = three; seq = 7 }

abbrev pub answerer : Client
answerer = record {
  opts = record three { entity_type = EntityType.orb; client_id = bytes "fruit" };
  seq = 0;
}

abbrev calls : List Request
calls =
    Request.sends 1 none question
    ∷ Request.asks 2 none question
    ∷ Request.sends 3 none (message QoS.at_most_once)
    ∷ []

-- The counter wraps around.
abbrev last : Client
last = record asker { seq = u64_mod - 1 }

issue_numbers_example :
    (payload_numbers (issue last (Request.asks 2 none question)).0 ≡ (u64_mod - 1) ∷ [])
    × (wait_numbers (issue last (Request.asks 2 none question)).0 ≡ (u64_mod - 1) ∷ [])
    × ((issue last (Request.asks 2 none question)).1.seq ≡ 0)
issue_numbers_example = issue_numbers last (Request.asks 2 none question)

numbers-AllDistinct_example : AllDistinct (numbers last calls)
numbers-AllDistinct_example = numbers-AllDistinct last calls (omega arith) (omega arith)
