-- ===== src/Actor/Spec/Opens.antt =====
-- `connect` of relay-client/src/actor.rs against its description in stages.
use orb_relay_messages.Common.{
  subst, String, sym, ◌≡◌, refl, ap, ◌∙◌, append-nil, arith, Bool, true, false, if◌then◌else◌,
  Option, none, some, List, [], ◌∷◌, ◌++◌,
}
use orb_relay_messages.Common.Outcome.{Outcome, ok, err, panic}
use orb_relay_messages.Common.Bytes.{Text}
use orb_relay_messages.Relay.{AuthMethod, ResponseMsg, connect_request_into}
use orb_relay_messages.Client.{Auth, Err, ClientOpts}
use orb_relay_messages.Actor.Defs.{State, Msg, Channel, Effect}
use orb_relay_messages.Actor.Monad.{
  Up, Done, Act, continue, ◌>>=◌, ◌>>◌, pure, raise, emit, send_or,
}
use orb_relay_messages.Actor.Session.{
  dial_settings, metadata, bad_client_id, Awaited, StreamItem, Answers, await, fail_if, auth_method,
  connect_request, greet, greet_item, await_greeting, open_stream, connect,
}
use orb_relay_messages.Actor.Session.Greeting.{credentials}
use orb_relay_messages.Actor.Spec.Whole.{
  Stage, passing, doing, putting, stage_then, through, no_error, awaited, introducing, opening,
  greeting, opened,
}

module _ (up : Up) (s : State) where
  -- The state stays as it is.
  abbrev pub plays : Stage → Done (Unit {0})
  plays x = record { state = s; effects = x.does; result = x.comes_out }

  continue-plays :
      (k : Act (Unit {0})) (x y : Stage)
      → k up s ≡ plays y
      → (r : Outcome Err (Unit {0})) → continue up s x.does (λ _. k) r ≡ plays (stage_then x y r)
  continue-plays k x y e (ok a) =
      ap (λ (d : Done (Unit {0})). record d { effects = x.does ++ d.effects }) e
  continue-plays k x y e (err er) = refl
  continue-plays k x y e panic = refl

  -- A record, so that the action stays visible.
  record Plays (m : Act (Unit {0})) (x : Stage) : Type 0 where
    at : m up s ≡ plays x

  then-Plays :
      {m k : Act (Unit {0})} {x y : Stage}
      → Plays m x
      → Plays k y
      → Plays (m >> k) (stage_then x y x.comes_out)
  then-Plays {m} {k} {x} {y} e f = record {
    at =
        ap (λ (d : Done (Unit {0})). continue up d.state d.effects (λ _. k) d.result) e.at
        ∙ continue-plays k x y f.at x.comes_out;
  }

  last-Plays : {m : Act (Unit {0})} (x : Stage) → Plays m x → Plays m (through (x ∷ []))
  last-Plays {m} x e = go x.comes_out e
    where
      go :
          (r : Outcome Err (Unit {0}))
          → Plays m (record { does = x.does; comes_out = r })
          → Plays m (stage_then x (passing (ok tt)) r)
      go (ok a) e =
          subst (λ es. Plays m (record { does = es; comes_out = ok tt })) (sym (append-nil x.does))
            e
      go (err er) e = e
      go panic e = e

  no_error-Plays : (o : Option Err) → Plays (fail_if o) (passing (no_error o))
  no_error-Plays none = record { at = refl }
  no_error-Plays (some e) = record { at = refl }

  awaited-Plays : (a : Awaited) → Plays (await a) (passing (awaited a))
  awaited-Plays Awaited.ready = record { at = refl }
  awaited-Plays (Awaited.failed e) = record { at = refl }
  awaited-Plays Awaited.elapsed = record { at = refl }

  if-Plays :
      (b : Bool) (e : Err)
      → Plays (if b then pure tt else raise e) (passing (if b then ok tt else err e))
  if-Plays true e = record { at = refl }
  if-Plays false e = record { at = refl }

  doing-Plays : (e : Effect) → Plays (emit e) (doing e)
  doing-Plays e = record { at = refl }

  putting-Plays : (c : Channel) (e : Effect) (t : String) → Plays (send_or c e t) (putting up c e t)
  putting-Plays c e t = record { at = ground arith }

  module _ (opts : ClientOpts) where
    abbrev introduces : AuthMethod → Act (Unit {0})
    introduces method =
        send_or Channel.tonic (Effect.to_tonic (connect_request_into (connect_request opts method)))
          "Failed to send RelayConnectRequest"

    introducing-Plays :
        {k : Act (Unit {0})} {y : Stage} (a : Auth) (watched : Text)
        → Plays k y
        → let x = introducing opts up (credentials a watched) in
          Plays (auth_method a watched >>= λ m. introduces m >> k) (stage_then x y x.comes_out)
    unfolding auth_method
    introducing-Plays (Auth.token t) watched e = record {
      at = (then-Plays (putting-Plays Channel.tonic _ _) e).at;
    }
    introducing-Plays Auth.token_receiver watched e = record {
      at = (then-Plays (putting-Plays Channel.tonic _ _) e).at;
    }
    introducing-Plays Auth.zkp watched e = record { at = refl }

    opening-Plays : (net : Answers) → Plays (open_stream opts net) (through (opening opts up net))
    unfolding open_stream
    opening-Plays net = then-Plays (no_error-Plays net.endpoint_error) (
        then-Plays (doing-Plays (Effect.dial (dial_settings opts))) (
          then-Plays (awaited-Plays net.channel) (
            then-Plays (if-Plays net.is_ascii bad_client_id) (
              introducing-Plays opts.auth net.watched (
                then-Plays (doing-Plays (Effect.open_stream (metadata opts)))
                  (last-Plays (passing (awaited net.stream)) (awaited-Plays net.stream)))))))

    handing_on-Plays :
        {k : Act (Unit {0})} {y : Stage} (r : ResponseMsg) (t : String)
        → Plays k y
        → let x = putting up Channel.actor (Effect.to_actor (Msg.relay_response r)) t in
          Plays
            ((do send_or Channel.actor (Effect.to_actor (Msg.relay_response r)) t; pure true)
              >>= λ more. if more then k else pure tt)
            (stage_then x y x.comes_out)
    handing_on-Plays r t e = record { at = ground (arith, e.at) }

    greeting-Plays :
        (items : List StreamItem) → Plays (await_greeting items) (through (greeting up items))
    unfolding await_greeting greet_item greet
    greeting-Plays [] = record { at = refl }
    greeting-Plays (StreamItem.ended ∷ rest) = record { at = refl }
    greeting-Plays (StreamItem.status t ∷ rest) = record { at = refl }
    greeting-Plays (StreamItem.message none ∷ rest) = record { at = (greeting-Plays rest).at }
    greeting-Plays (StreamItem.message (some (ResponseMsg.connect_response r)) ∷ rest) = record {
      at = ground arith;
    }
    greeting-Plays (StreamItem.message (some (ResponseMsg.ack a)) ∷ rest) =
        handing_on-Plays (ResponseMsg.ack a) _ (greeting-Plays rest)
    greeting-Plays (StreamItem.message (some (ResponseMsg.payload p)) ∷ rest) =
        handing_on-Plays (ResponseMsg.payload p) _ (greeting-Plays rest)

    -- `connect` does what its stages do up to the first that fails, and leaves the state as it is.
    pub connect-plays : (net : Answers) → connect opts net up s ≡ plays (opened opts up net)
    unfolding connect
    connect-plays net = (then-Plays (opening-Plays net) (greeting-Plays net.items)).at
