-- ===== src/System/Meets.antt =====
-- The rule for a client at work: a property of the actor's state, one of its effects and one of the
-- messages under way, from what each piece of code keeps to every order of the steps.
use orb_relay_messages.Common.{
  ℕ, ◌≡◌, ◌∙◌, refl, subst, none, some, List, [], ◌∷◌, All, All-append, All-split,
}
use orb_relay_messages.Common.Outcome.{Outcome, ok, err, panic}
use orb_relay_messages.Common.Bytes.{Text}
use orb_relay_messages.Relay.{AuthMethod, ResponseMsg, connect_request_into}
use orb_relay_messages.Client.{Sender, Duration, Err, ClientOpts}
use orb_relay_messages.Actor.Defs.{State, Dial, Msg, Effect}
use orb_relay_messages.Actor.Monad.{Up, Act, raise}
use orb_relay_messages.Actor.Handler.{handle_msg}
use orb_relay_messages.Actor.Session.{
  StreamItem, Received, connect_request, start_heartbeat, receive, open_stream, timed_out,
}
use orb_relay_messages.Actor.Keeps.{raise-Keeps, Keeps, open_stream-Keeps}
use orb_relay_messages.Actor.Run.{Next, after_error, initial}
use orb_relay_messages.Actor.Run.Keeps.{Leaves, after_error-Leaves, OkReceived, receive-Keeps}
use orb_relay_messages.Api
use orb_relay_messages.Api.{Client}
use orb_relay_messages.System.Keeps.{greets-Keeps}
use orb_relay_messages.System.{
  Call, System, IsPossible, issued, armed, handed, happens, resumes, moves_on, Phase, acts, greets,
  greeted, to_greeting, to_serving, Step, Reach,
}

module _ (P : State → Type 0) (Q : Effect → Type 0) (Ok : Msg → Type 0) (opts : ClientOpts) where
  -- What each piece of code keeps.
  pub record IsKept : Type 0 where
    pub dial : (d : Dial) → Q (Effect.dial d)
    pub open_stream : (h : List (Text × Text)) → Q (Effect.open_stream h)
    pub introduce :
        (a : AuthMethod) → Q (Effect.to_tonic (connect_request_into (connect_request opts a)))
    pub hand_on : (r : ResponseMsg) → Q (Effect.to_actor (Msg.relay_response r))
    pub sleep : Q (Effect.sleep opts.connection_backoff)
    pub beat : Keeps P Q (start_heartbeat opts)
    pub each : (msg : Msg) → Ok msg → Keeps P Q (handle_msg opts msg)
    pub response : (r : ResponseMsg) → Ok (Msg.relay_response r)
    pub timer : (d : Duration) (m : Msg) → Q (Effect.later d m) → Ok m
    pub to_self : (m : Msg) → Q (Effect.to_actor m) → Ok m
    pub calls :
        (s : System) (c : Call)
        → IsPossible s c
        → s.client.opts ≡ opts
        → All Ok (issued s.client s.next c).0
    pub start : P initial

  pub record AllMeet (s : System) : Type 0 where
    pub client : s.client.opts ≡ opts
    pub state : P s.state
    pub effects : All Q s.effects
    pub channel : All Ok s.channel
    pub timers : All Ok s.timers
    pub calls : All (All Ok) s.calls

  module _ (kept : IsKept) where
    armed-Ok : (es : List Effect) → All Q es → All Ok (armed es)
    armed-Ok [] h = tt
    armed-Ok (Effect.later d m ∷ es) h = (kept.timer d m h.0, armed-Ok es h.1)
    armed-Ok (_ ∷ es) h = armed-Ok es h.1

    handed-Ok : (es : List Effect) → All Q es → All Ok (handed es)
    handed-Ok [] h = tt
    handed-Ok (Effect.to_actor m ∷ es) h = (kept.to_self m h.0, handed-Ok es h.1)
    handed-Ok (_ ∷ es) h = handed-Ok es h.1

    happens-Meet : (es : List Effect) (s : System) → All Q es → AllMeet s → AllMeet (happens es s)
    happens-Meet es s q a = record {
      client = a.client;
      state = a.state;
      effects = All-append Q s.effects es a.effects q;
      channel = All-append Ok s.channel _ a.channel (handed-Ok es q);
      timers = All-append Ok s.timers _ a.timers (armed-Ok es q);
      calls = a.calls;
    }

    in_phase : (p : Phase) (s : System) → AllMeet s → AllMeet (record s { phase = p })
    in_phase p s a = record {
      client = a.client;
      state = a.state;
      effects = a.effects;
      channel = a.channel;
      timers = a.timers;
      calls = a.calls;
    }

    resumes-Meet :
        {A : Type 0} (n : ℕ) (to : A → Phase) (r : Outcome Err A) (s : System)
        → AllMeet s
        → AllMeet (resumes opts n to r s)
    unfolding resumes
    resumes-Meet n to (ok a) s h = in_phase _ s h
    resumes-Meet n to panic s h = in_phase _ s h
    resumes-Meet n to (err e) s h =
        go (after_error opts n e) (after_error-Leaves Q opts n e kept.sleep)
      where
        go : (x : Next) → Leaves Q x → AllMeet (moves_on x s)
        go (Next.finish e') l = in_phase _ s h
        go (Next.again es m) l = in_phase _ _ (happens-Meet es s l h)

    acts-Meet :
        {A : Type 0} (n : ℕ) (to : A → Phase) (f : Act A) (up : Up) (s : System)
        → Keeps P Q f
        → AllMeet s
        → AllMeet (acts opts n to f up s)
    acts-Meet n to f up s k a =
        let d = f up s.state in
        let (p, q) = k.at up s.state a.state in
        resumes-Meet n to d.result (happens d.effects (record s { state = d.state })) (
          happens-Meet d.effects (record s { state = d.state }) q
            (record {
              client = a.client;
              state = p;
              effects = a.effects;
              channel = a.channel;
              timers = a.timers;
              calls = a.calls;
            }))

    item-Ok : (i : StreamItem) → OkReceived Ok (Received.from_stream i)
    item-Ok (StreamItem.message (some r)) = kept.response r
    item-Ok (StreamItem.message none) = tt
    item-Ok (StreamItem.status t) = tt
    item-Ok StreamItem.ended = tt

    issued-opts : (c : Client) (tx : Sender) (call : Call) → (issued c tx call).1.opts ≡ c.opts
    unfolding issued Api.send Api.ask Api.fetch_seq
    issued-opts c tx (Call.send m) = refl
    issued-opts c tx (Call.ask m) = refl
    issued-opts c tx (Call.reply r p q) = refl
    issued-opts c tx Call.stop = refl
    issued-opts c tx Call.reconnect = refl

    Step-Meet : {s t : System} → Step opts s t → AllMeet s → AllMeet t
    Step-Meet {s} (Step.call c can) a = record {
      client = issued-opts s.client s.next c ∙ a.client;
      state = a.state;
      effects = a.effects;
      channel = a.channel;
      timers = a.timers;
      calls = All-append (All Ok) s.calls _ a.calls (kept.calls s c can a.client, tt);
    }
    Step-Meet {s} (Step.put before after m ms e r) a =
        let (b, (now, rest)) =
          All-split (All Ok) before (m ∷ ms) after (subst (All (All Ok)) e a.calls) in
        record {
          client = a.client;
          state = a.state;
          effects = a.effects;
          channel = All-append Ok s.channel _ a.channel (now.0, tt);
          timers = a.timers;
          calls = All-append (All Ok) before _ b (now.1, rest);
        }
    Step-Meet {s} (Step.fire before after m e r) a =
        let (b, (now, rest)) = All-split Ok before m after (subst (All Ok) e a.timers) in
        record {
          client = a.client;
          state = a.state;
          effects = a.effects;
          channel = All-append Ok s.channel _ a.channel (now, tt);
          timers = All-append Ok before _ b rest;
          calls = a.calls;
        }
    Step-Meet {s} (Step.take m ms n up e p l) a =
        let (now, rest) = subst (All Ok) e a.channel in
        acts-Meet n (to_serving n) (handle_msg opts m) up (record s { channel = ms })
          (kept.each m now)
          (record {
            client = a.client;
            state = a.state;
            effects = a.effects;
            channel = rest;
            timers = a.timers;
            calls = a.calls;
          })
    Step-Meet {s} (Step.item i n up b p l) a =
        acts-Meet n (to_serving n) (receive opts (Received.from_stream i)) up s
          (receive-Keeps P Q opts kept.dial kept.open_stream kept.introduce kept.hand_on kept.sleep
            kept.beat Ok kept.each (Received.from_stream i) (item-Ok i))
          a
    Step-Meet {s} (Step.dial net n up p l) a =
        acts-Meet n (to_greeting n) (open_stream opts net) up s
          (open_stream-Keeps opts kept.dial kept.open_stream kept.introduce kept.hand_on net) a
    Step-Meet {s} (Step.greet i n up p l) a =
        acts-Meet n (greeted n) (greets opts i) up s
          (greets-Keeps opts kept.dial kept.open_stream kept.introduce kept.hand_on kept.beat i) a
    Step-Meet {s} (Step.time_out n up p) a =
        acts-Meet n (to_greeting {A = Unit {0}} n) (raise timed_out) up s (raise-Keeps _) a

    pub Reach-Meet : {s : System} → Reach opts s → AllMeet s
    unfolding Api.connect
    Reach-Meet Reach.start = record {
      client = refl;
      state = kept.start;
      effects = tt;
      channel = tt;
      timers = tt;
      calls = tt;
    }
    Reach-Meet (Reach.next_step r st) = Step-Meet st (Reach-Meet r)
