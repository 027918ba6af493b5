-- ===== src/System/Priority/Served.antt =====
-- `serve` of one more input.
use orb_relay_messages.Common.{
  ◌≡◌, refl, sym, ap, ◌∙◌, append-nil, append_assoc, List, [], ◌∷◌, ◌++◌,
}
use orb_relay_messages.Common.Outcome.{Outcome, ok, err, panic}
use orb_relay_messages.Client.{Err, ClientOpts}
use orb_relay_messages.Actor.Defs.{State, Effect}
use orb_relay_messages.Actor.Monad.{Up, Done, Act, continue, prefix}
use orb_relay_messages.Actor.Session.{Input, receive, serve}

module _ (opts : ClientOpts) (up : Up) where
  prefix-continue :
      (es fs : List Effect) (s : State) (k : Act (Unit {0})) (r : Outcome Err (Unit {0}))
      → prefix es (continue up s fs (λ _. k) r) ≡ continue up s (es ++ fs) (λ _. k) r
  prefix-continue es fs s k (ok a) =
      ap (λ q. record (k up s) { effects = q }) (sym (append_assoc es fs (k up s).effects))
  prefix-continue es fs s k (err e) = refl
  prefix-continue es fs s k panic = refl

  -- `k` and then `l`.
  abbrev joined : Act (Unit {0}) → Done (Unit {0}) → Done (Unit {0})
  joined l d = continue up d.state d.effects (λ _. l) d.result

  continue-joined :
      (k l kl : Act (Unit {0}))
      → ((t : State) → kl up t ≡ joined l (k up t))
      → (t : State) (es : List Effect) (r : Outcome Err (Unit {0}))
      → continue up t es (λ _. kl) r ≡ joined l (continue up t es (λ _. k) r)
  continue-joined k l kl h t es (ok a) =
      ap (prefix es) (h t) ∙ prefix-continue es (k up t).effects (k up t).state l (k up t).result
  continue-joined k l kl h t es (err e) = refl
  continue-joined k l kl h t es panic = refl

  serve-append :
      (is js : List Input) (s : State)
      → serve opts (is ++ js) up s ≡ joined (serve opts js) (serve opts is up s)
  unfolding serve
  serve-append [] js s = refl
  serve-append (i ∷ is) js s =
      let d = receive opts i.received i.up s in
      continue-joined (serve opts is) (serve opts js) (serve opts (is ++ js))
        (λ t. serve-append is js t) d.state d.effects d.result

  pub serve-last :
      (is : List Input) (i : Input) (s t : State) (es : List Effect)
      → serve opts is up s ≡ record { state = t; effects = es; result = ok tt }
      → (r : Outcome Err (Unit {0})) → (receive opts i.received i.up t).result ≡ r
      → serve opts (is ++ i ∷ []) up s ≡ (
          let d = receive opts i.received i.up t in
          record { state = d.state; effects = es ++ d.effects; result = r })
  unfolding serve
  serve-last is i s t es e r q =
      serve-append is (i ∷ []) s
      ∙ ap (joined (serve opts (i ∷ []))) e
      ∙ ap (λ x. prefix es (continue up d.state d.effects (λ _. serve opts []) x)) q
      ∙ ends r
    where
      d : Done (Unit {0})
      d = receive opts i.received i.up t

      ends :
          (r : Outcome Err (Unit {0}))
          → prefix es (continue up d.state d.effects (λ _. serve opts []) r)
            ≡ record { state = d.state; effects = es ++ d.effects; result = r }
      ends (ok a) =
          ap (λ fs. record { state = d.state; effects = es ++ fs; result = ok a })
            (append-nil d.effects)
      ends (err x) = refl
      ends panic = refl
