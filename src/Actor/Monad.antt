-- ===== src/Actor/Monad.antt =====
-- Code of the actor: it reads which channels have a receiver, changes the state, leaves effects,
-- and returns, fails or panics. What was done before a failure stays done.
use orb_relay_messages.Common.{Bool, if◌then◌else◌, List, [], ◌∷◌, ◌++◌, String}
use orb_relay_messages.Common.Outcome.{Outcome, ok, err, panic}
use orb_relay_messages.Client.{Err, Duration}
use orb_relay_messages.Actor.Defs.{State, Msg, Channel, Effect}

-- Whether a channel still has a receiver; `flume`'s `send` on an unbounded channel fails if not.
abbrev pub Up : Type 0
Up = Channel → Bool

pub record Done (A : Type 0) : Type 0 where
  pub state : State
  pub effects : List Effect
  pub result : Outcome Err A

abbrev pub Act : Type 0 → Type 0
Act A = Up → State → Done A

abbrev pub prefix : {A : Type 0} → List Effect → Done A → Done A
prefix es d = record d { effects = es ++ d.effects }

abbrev pub continue :
    {A B : Type 0} → Up → State → List Effect → (A → Act B) → Outcome Err A → Done B
continue up s es f (ok a) = prefix es (f a up s)
continue up s es f (err e) = record { state = s; effects = es; result = err e }
continue up s es f panic = record { state = s; effects = es; result = panic }

infixl 5 ◌>>=◌ ◌>>◌
abbrev pub ◌>>=◌ : {A B : Type 0} → Act A → (A → Act B) → Act B
◌>>=◌ m f up s = let d = m up s in continue up d.state d.effects f d.result

abbrev pub ◌>>◌ : {A B : Type 0} → Act A → Act B → Act B
m >> k = m >>= λ _. k

abbrev pub pure : {A : Type 0} → A → Act A
pure a up s = record { state = s; effects = []; result = ok a }

abbrev pub raise : {A : Type 0} → Err → Act A
raise e up s = record { state = s; effects = []; result = err e }

-- `todo!()`.
abbrev pub todo : {A : Type 0} → Act A
todo up s = record { state = s; effects = []; result = panic }

abbrev pub gets : {A : Type 0} → (State → A) → Act A
gets f up s = record { state = s; effects = []; result = ok (f s) }

abbrev pub modify : (State → State) → Act (Unit {0})
modify f up s = record { state = f s; effects = []; result = ok tt }

abbrev pub emit : Effect → Act (Unit {0})
emit e up s = record { state = s; effects = e ∷ []; result = ok tt }

-- `tx.send(x).wrap_err(context)?`.
abbrev pub send_or : Channel → Effect → String → Act (Unit {0})
send_or c e context up = (if up c then emit e else raise (Err.other context)) up

-- `let _ = tx.send(x)`, and a failure that is only logged.
abbrev pub send_ignoring : Channel → Effect → Act (Unit {0})
send_ignoring c e up = (if up c then emit e else pure tt) up

-- `task::spawn(async move { time::sleep(d).await; let _ = tx.send(msg); })`.
abbrev pub later : Duration → Msg → Act (Unit {0})
later d m = emit (Effect.later d m)
