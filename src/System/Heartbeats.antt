-- ===== src/System/Heartbeats.antt =====
-- The heartbeat of a client at work.
use orb_relay_messages.Common.{ℕ, ◌+◌, ◌≡◌, refl, List, [], ◌∷◌, arith}
use orb_relay_messages.Client.{Sender, ClientOpts}
use orb_relay_messages.Actor.Defs.{Effect}
use orb_relay_messages.Actor.Run.Amortized.{total}
use orb_relay_messages.Actor.Run.Heartbeats.{
  beats_of, to_start, beats-IsMeasure, handle_msg-exact, start-exact,
}
use orb_relay_messages.Api.{Client}
use orb_relay_messages.System.{Call, System, issued, Reach}
use orb_relay_messages.System.Measured.{charges, charges_all, IsBudget}
use orb_relay_messages.System.Issued.{issued-le}
use orb_relay_messages.System.Exact.{IsExact, Reach-Balances}

-- No effect counts by itself, and there is one heartbeat in all.
abbrev no_out : Effect → ℕ
no_out e = 0

abbrev one_beat : Sender → ℕ
one_beat tx = 1

issued-free : (c : Client) (tx : Sender) (call : Call) → charges beats_of (issued c tx call).0 ≡ 0
issued-free c tx call = omega (
  arith,
  issued-le {charge = beats_of} {tx = tx} {w = 0}
      (record {
        send = λ r. refl;
        stop = refl;
        reconnect = refl;
        wait_for_ack = λ m k. omega arith;
        wait_for_reply = λ m k. omega arith;
      })
      c call,
)

beats-IsBudget : IsBudget beats_of no_out one_beat
beats-IsBudget = record {
  later_free = λ d m. refl;
  to_actor_free = λ m. refl;
  response_free = λ r. refl;
  call_paid = λ c tx call. omega (arith, issued-free c tx call);
}

total-no_out : (es : List Effect) → total no_out es ≡ 0
total-no_out [] = refl
total-no_out (_ ∷ es) = omega (arith, total-no_out es)

beats-IsExact : (opts : ClientOpts) → IsExact opts (beats-IsMeasure opts) beats-IsBudget
beats-IsExact opts = record {
  handles = λ m up s l. handle_msg-exact opts m up s l.tonic;
  starts = λ up s. omega (arith, start-exact opts up s);
  calls = λ c tx call. omega (arith, issued-free c tx call);
}

-- The heartbeat neither dies out nor doubles. At every time, whatever the client, the server, the
-- timers and the connections did in whatever order, there is exactly one: the timer that was never
-- started yet, a timer that has not fired, or a heartbeat on the channel of the actor.
pub one_heartbeat :
    (opts : ClientOpts) (s : System)
    → Reach opts s
    → to_start s.state
        + charges beats_of s.timers
        + charges beats_of s.channel
        + charges_all beats_of s.calls
      ≡ 1
one_heartbeat opts s r = omega (
  arith,
  total-no_out s.effects,
  Reach-Balances opts (beats-IsMeasure opts) beats-IsBudget (beats-IsExact opts) refl r,
)
