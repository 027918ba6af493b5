-- ===== src/System/Replays/Orders.antt =====
-- Every order of the steps of a client at work is a run of `run_loop`.
use orb_relay_messages.Common.{refl, subst, []}
use orb_relay_messages.Client.{ClientOpts}
use orb_relay_messages.Actor.Session.{Received, receive}
use orb_relay_messages.System.{System, greets, Step, Reach}
use orb_relay_messages.System.Replays.{Replays, IsReplay}
use orb_relay_messages.System.Replays.Receives.{served}
use orb_relay_messages.System.Replays.Dials.{dialled}
use orb_relay_messages.System.Replays.Greetings.{timed, greets-IsReplay}

module _ (opts : ClientOpts) where
  Step-IsReplay : {s t : System} → Step opts s t → IsReplay opts s → IsReplay opts t
  unfolding receive greets
  Step-IsReplay (Step.call c can) h = h
  Step-IsReplay (Step.put before after m ms e r) h = h
  Step-IsReplay (Step.fire before after m e r) h = h
  Step-IsReplay {s} (Step.take m ms n up e p l) h =
      served opts n (record s { channel = ms }) (subst (λ q. Replays opts q s.state s.effects) p h)
        (record { up = up; received = Received.from_actor m }) _ refl
  Step-IsReplay {s} (Step.item i n up b p l) h =
      served opts n s (subst (λ q. Replays opts q s.state s.effects) p h)
        (record { up = up; received = Received.from_stream i }) _ refl
  Step-IsReplay {s} (Step.dial net n up p l) h =
      dialled opts n s (subst (λ q. Replays opts q s.state s.effects) p h) net up l _ refl
  Step-IsReplay {s} (Step.greet i n up p l) h =
      greets-IsReplay opts n s (subst (λ q. Replays opts q s.state s.effects) p h) i up l _ refl
  Step-IsReplay {s} (Step.time_out n up p) h =
      timed opts n s (subst (λ q. Replays opts q s.state s.effects) p h)

  pub Reach-IsReplay : {s : System} → Reach opts s → IsReplay opts s
  Reach-IsReplay Reach.start = record { rounds = []; so_far = λ ys. refl }
  Reach-IsReplay (Reach.next_step r st) = Step-IsReplay st (Reach-IsReplay r)
