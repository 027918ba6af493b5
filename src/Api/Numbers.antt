-- ===== src/Api/Numbers.antt =====
-- The sequence numbers that `send` and `ask` of relay-client/src/lib.rs draw from the shared
-- counter.
use orb_relay_messages.Common.{
  ℕ, zero, suc, ◌+◌, ◌%◌, ◌<◌, ◌≡◌, refl, ap, ap₂, sym, ◌∙◌, true, Option, some, List, [], ◌∷◌,
  ◌++◌, length, arith, All, ◌≤◌, ◌≢◌, subst,
}
use orb_relay_messages.Common.Bytes.{u64_mod}
use orb_relay_messages.Relay.{RequestMsg}
use orb_relay_messages.Client.{Seq, Sender, QoS, SendMessage, RecvdRelayPayload}
use orb_relay_messages.Actor.Defs.{Msg}
use orb_relay_messages.Api.{Client, ActorUp, send, ask}

-- One call of a client, with what its await brings.
pub data Request : Type 0 where
  sends : Sender → Option (Unit {0}) → SendMessage → Request
  asks : Sender → Option RecvdRelayPayload → SendMessage → Request

abbrev up : ActorUp
up = record { first = true; second = true }

abbrev pub issue : Client → Request → List Msg × Client
issue c (Request.sends tx acked m) = let (call, c') = send c up tx acked m in (call.msgs, c')
issue c (Request.asks tx replied m) = let (call, c') = ask c up tx replied m in (call.msgs, c')

abbrev payload_number : Option RequestMsg → List Seq
payload_number (some (RequestMsg.payload p)) = p.seq ∷ []
payload_number _ = []

-- The numbers of the payloads among the messages, and of the waits.
abbrev pub payload_numbers : List Msg → List Seq
payload_numbers [] = []
payload_numbers (Msg.send r ∷ ms) = payload_number r.msg ++ payload_numbers ms
payload_numbers (_ ∷ ms) = payload_numbers ms

abbrev pub wait_numbers : List Msg → List Seq
wait_numbers [] = []
wait_numbers (Msg.wait_for_ack m tx k ∷ ms) = k ∷ wait_numbers ms
wait_numbers (Msg.wait_for_reply m tx k ∷ ms) = k ∷ wait_numbers ms
wait_numbers (_ ∷ ms) = wait_numbers ms

-- The numbers that the calls of a client send, in order.
pub numbers : Client → List Request → List Seq
numbers c [] = []
numbers c (r ∷ rs) = let (ms, c') = issue c r in payload_numbers ms ++ numbers c' rs

-- `n` numbers from `s` on, modulo 2^64.
unfoldable pub count_up : ℕ → ℕ → List Seq
count_up s zero = []
count_up s (suc n) = (s % u64_mod) ∷ count_up (s + 1) n

count_up-mod : (s n : ℕ) → count_up (s % u64_mod) n ≡ count_up s n
unfolding count_up
count_up-mod s zero = refl
count_up-mod s (suc n) = ap₂ ◌∷◌ (omega arith) (
    sym (count_up-mod (s % u64_mod + 1) n)
    ∙ ap (λ k. count_up k n) (omega arith)
    ∙ count_up-mod (s + 1) n)

-- What a call waits for, if it waits: an `AtLeastOnce` send for an ack, a question for its reply.
abbrev pub waits : Seq → Request → List Seq
waits k (Request.sends tx acked m) = elim m.qos [
  | QoS.at_most_once ↦ []
  | QoS.at_least_once ↦ k ∷ []
]
waits k (Request.asks tx replied m) = k ∷ []

-- A call sends one payload, under the counter's number, waits under that same number if at all,
-- and moves the counter on by one, modulo 2^64.
pub issue_numbers :
    (c : Client) (r : Request)
    → (payload_numbers (issue c r).0 ≡ c.seq ∷ [])
      × (wait_numbers (issue c r).0 ≡ waits c.seq r)
      × ((issue c r).1.seq ≡ (c.seq + 1) % u64_mod)
unfolding send ask
issue_numbers c (Request.sends tx acked m) = ground arith
issue_numbers c (Request.asks tx replied m) = ground arith

-- The calls of a client number their payloads one after the other, modulo 2^64, whatever their
-- kinds and outcomes.
numbers-count_up :
    (c : Client) (rs : List Request) → c.seq < u64_mod → numbers c rs ≡ count_up c.seq (length rs)
unfolding numbers count_up
numbers-count_up c [] h = refl
numbers-count_up c (r ∷ rs) h =
    let (p, _, q) = issue_numbers c r in
    let (ms, c') = issue c r in
    let rest : numbers c' rs ≡ count_up (c.seq + 1) (length rs) =
      numbers-count_up c' rs (rw q (omega arith))
      ∙ ap (λ k. count_up k (length rs)) q
      ∙ count_up-mod (c.seq + 1) (length rs) in
    rw (p, rest) (ap (λ (k : ℕ). k ∷ count_up (c.seq + 1) (length rs)) (omega arith))

-- No number stands twice.
abbrev pub AllDistinct : List Seq → Type 0
AllDistinct [] = Unit {0}
AllDistinct (k ∷ ks) = All (λ j. j ≢ k) ks × AllDistinct ks

fresh-count_up : (s d n : ℕ) → d + n < u64_mod → All (λ j. j ≢ s % u64_mod) (count_up (s + d + 1) n)
unfolding count_up
fresh-count_up s d zero h = tt
fresh-count_up s d (suc n) h = (
  λ e. omega arith,
  subst (λ (k : ℕ). All (λ j. j ≢ s % u64_mod) (count_up k n)) (omega arith)
      (fresh-count_up s (d + 1) n (omega arith)),
)

count_up-AllDistinct : (s n : ℕ) → n ≤ u64_mod → AllDistinct (count_up s n)
unfolding count_up
count_up-AllDistinct s zero h = tt
count_up-AllDistinct s (suc n) h = (
  subst (λ (k : ℕ). All (λ j. j ≢ s % u64_mod) (count_up k n)) (omega arith)
      (fresh-count_up s 0 n (omega arith)),
  count_up-AllDistinct (s + 1) n (omega arith),
)

-- Up to 2^64 sends and questions of a client never share a number.
pub numbers-AllDistinct :
    (c : Client) (rs : List Request)
    → c.seq < u64_mod
    → length rs ≤ u64_mod
    → AllDistinct (numbers c rs)
numbers-AllDistinct c rs h b =
    rw (numbers-count_up c rs h) (count_up-AllDistinct c.seq (length rs) b)
