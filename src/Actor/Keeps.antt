-- ===== src/Actor/Keeps.antt =====
-- Rules for the actor's code: a property of the state that it keeps, and one of the effects that it
-- leaves, on every path, failures included.
use orb_relay_messages.Common.{
  Bool, true, false, if◌then◌else◌, List, [], ◌∷◌, String, All, All-append, Option, none, some,
}
use orb_relay_messages.Common.Outcome.{Outcome, ok, err, panic}
use orb_relay_messages.Common.Bytes.{Text}
use orb_relay_messages.Relay.{AuthMethod, ResponseMsg, connect_request_into}
use orb_relay_messages.Client.{Auth, Err, Duration, ClientOpts}
use orb_relay_messages.Actor.Defs.{State, Dial, Msg, Channel, Effect}
use orb_relay_messages.Actor.Monad.{
  Up, Done, Act, continue, ◌>>=◌, pure, raise, todo, gets, modify, emit, send_or, send_ignoring,
  later,
}
use orb_relay_messages.Actor.Session.{
  Awaited, StreamItem, Answers, Input, await, fail_if, auth_method, bad_client_id, connect_request,
  dial_settings, metadata, greet, greet_item, await_greeting, open_stream, connect, receive, serve,
  start_heartbeat, main_loop,
}

module _ (P : State → Type 0) (Q : Effect → Type 0) where
  abbrev Meets : {A : Type 0} → Done A → Type 0
  Meets d = P d.state × All Q d.effects

  -- A record, so that the action stays visible.
  pub record Keeps {A : Type 0} (m : Act A) : Type 0 where
    pub at : (up : Up) (s : State) → P s → P (m up s).state × All Q (m up s).effects

module _ {P : State → Type 0} {Q : Effect → Type 0} where
  continue-Meets :
      {A B : Type 0} (up : Up) (s : State) (es : List Effect) (f : A → Act B) (r : Outcome Err A)
      → ((a : A) → Keeps P Q (f a))
      → P s
      → All Q es
      → Meets P Q (continue up s es f r)
  continue-Meets up s es f (ok a) k p q =
      let (p', q') = (k a).at up s p in (p', All-append Q es _ q q')
  continue-Meets up s es f (err e) k p q = (p, q)
  continue-Meets up s es f panic k p q = (p, q)

  pub bind-Keeps :
      {A B : Type 0} {m : Act A} {f : A → Act B}
      → Keeps P Q m
      → ((a : A) → Keeps P Q (f a))
      → Keeps P Q (m >>= f)
  bind-Keeps {m} {f} k l = record {
    at = λ up s p.
        let d = m up s in
        let (p', q) = k.at up s p in continue-Meets up d.state d.effects f d.result l p' q;
  }

  pub pure-Keeps : {A : Type 0} (a : A) → Keeps P Q (pure a)
  pure-Keeps a = record { at = λ up s p. (p, tt) }

  pub raise-Keeps : {A : Type 0} (e : Err) → Keeps P Q (raise {A = A} e)
  raise-Keeps e = record { at = λ up s p. (p, tt) }

  todo-Keeps : {A : Type 0} → Keeps P Q (todo {A = A})
  todo-Keeps = record { at = λ up s p. (p, tt) }

  pub gets-Keeps : {A : Type 0} (f : State → A) → Keeps P Q (gets f)
  gets-Keeps f = record { at = λ up s p. (p, tt) }

  pub modify-Keeps : (f : State → State) → ((s : State) → P s → P (f s)) → Keeps P Q (modify f)
  modify-Keeps f h = record { at = λ up s p. (h s p, tt) }

  pub emit-Keeps : (e : Effect) → Q e → Keeps P Q (emit e)
  emit-Keeps e q = record { at = λ up s p. (p, (q, tt)) }

  pub later-Keeps : (d : Duration) (m : Msg) → Q (Effect.later d m) → Keeps P Q (later d m)
  later-Keeps d m q = emit-Keeps (Effect.later d m) q

  pub if-Keeps :
      {A : Type 0} (b : Bool) {m k : Act A}
      → Keeps P Q m
      → Keeps P Q k
      → Keeps P Q (if b then m else k)
  if-Keeps true h h' = h
  if-Keeps false h h' = h'

  pub send_or-Keeps : (c : Channel) (e : Effect) (t : String) → Q e → Keeps P Q (send_or c e t)
  send_or-Keeps c e t q = record {
    at = λ up. (if-Keeps (up c) (emit-Keeps e q) (raise-Keeps (Err.other t))).at up;
  }

  pub send_ignoring-Keeps : (c : Channel) (e : Effect) → Q e → Keeps P Q (send_ignoring c e)
  send_ignoring-Keeps c e q = record {
    at = λ up. (if-Keeps (up c) (emit-Keeps e q) (pure-Keeps tt)).at up;
  }

  -- What `connect` does: two calls of tonic, one `ConnectRequest`, and responses handed on to the
  -- actor.
  module _ (opts : ClientOpts) (dial : (d : Dial) → Q (Effect.dial d))
      (opened : (h : List (Text × Text)) → Q (Effect.open_stream h))
      (introduce : (a : AuthMethod)
        → Q (Effect.to_tonic (connect_request_into (connect_request opts a))))
      (hand_on : (r : ResponseMsg) → Q (Effect.to_actor (Msg.relay_response r))) where
    await-Keeps : (a : Awaited) → Keeps P Q (await a)
    await-Keeps Awaited.ready = pure-Keeps tt
    await-Keeps (Awaited.failed e) = raise-Keeps e
    await-Keeps Awaited.elapsed = raise-Keeps _

    fail_if-Keeps : (o : Option Err) → Keeps P Q (fail_if o)
    fail_if-Keeps none = pure-Keeps tt
    fail_if-Keeps (some e) = raise-Keeps e

    auth_method-Keeps : (a : Auth) (t : Text) → Keeps P Q (auth_method a t)
    unfolding auth_method
    auth_method-Keeps (Auth.token x) t = pure-Keeps _
    auth_method-Keeps Auth.token_receiver t = pure-Keeps _
    auth_method-Keeps Auth.zkp t = todo-Keeps

    greet-Keeps : (r : ResponseMsg) → Keeps P Q (greet r)
    unfolding greet
    greet-Keeps (ResponseMsg.connect_response r) =
        if-Keeps r.success (pure-Keeps false) (raise-Keeps _)
    greet-Keeps (ResponseMsg.ack a) =
        bind-Keeps (send_or-Keeps _ _ _ (hand_on _)) (λ _. pure-Keeps true)
    greet-Keeps (ResponseMsg.payload p) =
        bind-Keeps (send_or-Keeps _ _ _ (hand_on _)) (λ _. pure-Keeps true)

    pub greet_item-Keeps : (i : StreamItem) → Keeps P Q (greet_item i)
    unfolding greet_item
    greet_item-Keeps StreamItem.ended = pure-Keeps false
    greet_item-Keeps (StreamItem.status s) = raise-Keeps _
    greet_item-Keeps (StreamItem.message none) = pure-Keeps true
    greet_item-Keeps (StreamItem.message (some m)) = greet-Keeps m

    await_greeting-Keeps : (items : List StreamItem) → Keeps P Q (await_greeting items)
    unfolding await_greeting
    await_greeting-Keeps [] = raise-Keeps _
    await_greeting-Keeps (i ∷ rest) =
        let k = await_greeting-Keeps rest in
        bind-Keeps (greet_item-Keeps i) (λ more. if-Keeps more k (pure-Keeps tt))

    pub open_stream-Keeps : (net : Answers) → Keeps P Q (open_stream opts net)
    unfolding open_stream
    open_stream-Keeps net = bind-Keeps (fail_if-Keeps net.endpoint_error) λ _.
        bind-Keeps (emit-Keeps (Effect.dial (dial_settings opts)) (dial _)) λ _.
          bind-Keeps (await-Keeps net.channel) λ _.
            bind-Keeps (if-Keeps net.is_ascii (pure-Keeps tt) (raise-Keeps bad_client_id)) λ _.
              bind-Keeps (auth_method-Keeps opts.auth net.watched) λ m.
                bind-Keeps
                  (send_or-Keeps Channel.tonic
                    (Effect.to_tonic (connect_request_into (connect_request opts m)))
                    "Failed to send RelayConnectRequest" (introduce _))
                  λ _.
                    bind-Keeps (emit-Keeps (Effect.open_stream (metadata opts)) (opened _))
                      λ _. await-Keeps net.stream

    pub connect-Keeps : (net : Answers) → Keeps P Q (connect opts net)
    unfolding connect
    connect-Keeps net = bind-Keeps (open_stream-Keeps net) (λ _. await_greeting-Keeps net.items)

    serve-Keeps :
        (is : List Input)
        → All (λ i. Keeps P Q (receive opts i.received)) is
        → Keeps P Q (serve opts is)
    unfolding serve
    serve-Keeps [] h = pure-Keeps tt
    serve-Keeps (i ∷ is) h =
        bind-Keeps (record { at = λ up. h.0.at i.up }) (λ _. serve-Keeps is h.1)

    pub main_loop-Keeps :
        (net : Answers) (is : List Input)
        → Keeps P Q (start_heartbeat opts)
        → All (λ i. Keeps P Q (receive opts i.received)) is
        → Keeps P Q (main_loop opts net is)
    unfolding main_loop
    main_loop-Keeps net is k h =
        bind-Keeps (connect-Keeps net) λ _. bind-Keeps k λ _. serve-Keeps is h
