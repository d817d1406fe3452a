-- ===== src/Onionmsg/Threads/Calls.antt =====
-- Calls that the loop has taken, and calls that it will never take (onionmsg/messenger.go, handleRegistration).
use boltnd.Prelude.{
  ℕ, ◌≡◌, refl, sym, ap, ◌∙◌, Bool, true, false, List, ◌==◌, ==_iff, Bytes, Bool-cases, arith, inl,
  inr,
}
use boltnd.Prelude.Errors.{Result}
use boltnd.Prelude.Exec.{Exec}
use boltnd.Onionmsg.Handlers.{Handlers, Registration}
use boltnd.Onionmsg.Messenger.{answered, await_answer}
use boltnd.Onionmsg.Threads.{
  Stage, fresh, offering, awaiting, returned, exited, System, update, Step, called, rejected,
  offered, registered, received, abandoned, unanswered, subscribed, unsubscribed, arrived, handled,
  met, requests_shutdown, leaves, shutdown_returned, stopping, stopped, Steps, stay, go,
}

update-other : {A : Type 0} (f : ℕ → A) (i j : ℕ) (a : A) → (i == j) ≡ false → update f i a j ≡ f j
unfolding update
update-other f i j a other = rw other

module _ {S : Type 0} (process : Handlers S → Bytes → Exec S (Unit {0}))
    (requests : ℕ → Registration S) (closure : System S → Type 0) where
  -- The call comes back with what the loop answers.
  abbrev pub IsServed : ℕ → System S → Type 0
  IsServed i s =
      (t : System S) × (a : Result (Unit {0})) × (Steps process requests closure s t)
      × (t.stages i ≡ returned (await_answer answered a))
      × (t.quit_closed ≡ s.quit_closed)

  -- A call that hangs: it is at the first select, the loop has exited, and Stop was not called.
  abbrev pub Hangs : ℕ → System S → Type 0
  Hangs i s = (s.worker ≡ exited) × (s.stages i ≡ offering)

  update-offering :
      (i j : ℕ) (f : ℕ → Stage) (stage : Stage)
      → f i ≡ offering
      → ((i == j) ≡ false)
      → update f j stage i ≡ offering
  update-offering i j f stage at other =
      let other' : (j == i) ≡ false = ground arith in update-other f j i stage other' ∙ at

  stage-differs :
      (i j : ℕ) (f : ℕ → Stage) (stage : Stage)
      → f i ≡ offering
      → f j ≡ stage
      → (stage ≡ offering → ⊥)
      → (i == j) ≡ false
  stage-differs i j f stage at here clash = elim (Bool-cases (i == j)) [
    | inl same ↦ absurd (clash (sym here ∙ ap f (sym ((==_iff i j).0 same)) ∙ at))
    | inr other ↦ other
  ]

  fresh-differs : fresh ≡ offering → ⊥
  fresh-differs h = cc

  awaiting-differs : awaiting ≡ offering → ⊥
  awaiting-differs h = cc

  still_open : {b : Bool} → b ≡ true → b ≡ false → ⊥
  still_open t f = cc

  step-Hangs :
      (more : List ℕ) (i : ℕ) (s t : System S)
      → Hangs i s
      → Step process requests closure more s t
      → t.quit_closed ≡ false
      → Hangs i t
  step-Hangs more i s t (gone, at) (called j s' here good) still =
      (gone, update-offering i j s.stages _ at (stage-differs i j s.stages _ at here fresh-differs))
  step-Hangs more i s t (gone, at) (rejected j e s' here bad) still =
      (gone, update-offering i j s.stages _ at (stage-differs i j s.stages _ at here fresh-differs))
  step-Hangs more i s t (gone, at) (offered j s' here idle) still = absurd (cc)
  step-Hangs more i s t (gone, at) (registered j s' busy) still = absurd (cc)
  step-Hangs more i s t (gone, at) (received j a s' here there) still = (
    gone,
    update-offering i j s.stages _ at (stage-differs i j s.stages _ at here awaiting-differs),
  )
  step-Hangs more i s t (gone, at) (abandoned j s' here closed) still =
      absurd (still_open closed still)
  step-Hangs more i s t (gone, at) (unanswered j s' here closed) still =
      absurd (still_open closed still)
  step-Hangs more i s t (gone, at) (subscribed s' busy) still = absurd (cc)
  step-Hangs more i s t (gone, at) (unsubscribed n s' busy) still = absurd (cc)
  step-Hangs more i s t (gone, at) (arrived type d s' busy) still = absurd (cc)
  step-Hangs more i s t (gone, at) (handled type d s' busy) still = absurd (cc)
  step-Hangs more i s t (gone, at) (met e s' busy ready) still = absurd (cc)
  step-Hangs more i s t (gone, at) (requests_shutdown e s' busy asks) still = absurd (cc)
  step-Hangs more i s t (gone, at) (leaves r s' busy sound quiet) still = absurd (cc)
  step-Hangs more i s t (gone, at) (shutdown_returned s' busy back) still = absurd (cc)
  step-Hangs more i s t (gone, at) (stopping s' before) still = absurd (still_open refl still)
  step-Hangs more i s t (gone, at) (stopped s' closed before busy) still =
      absurd (still_open closed still)

  step-open :
      (more : List ℕ) (s t : System S)
      → Step process requests closure more s t
      → t.quit_closed ≡ false
      → s.quit_closed ≡ false
  step-open more s t (called j s' here good) still = still
  step-open more s t (rejected j e s' here bad) still = still
  step-open more s t (offered j s' here idle) still = still
  step-open more s t (registered j s' busy) still = still
  step-open more s t (received j a s' here there) still = still
  step-open more s t (abandoned j s' here closed) still = still
  step-open more s t (unanswered j s' here closed) still = still
  step-open more s t (subscribed s' busy) still = still
  step-open more s t (unsubscribed n s' busy) still = still
  step-open more s t (arrived type d s' busy) still = still
  step-open more s t (handled type d s' busy) still = still
  step-open more s t (met e s' busy ready) still = still
  step-open more s t (requests_shutdown e s' busy asks) still = still
  step-open more s t (leaves r s' busy sound quiet) still = still
  step-open more s t (shutdown_returned s' busy back) still = still
  step-open more s t (stopping s' before) still = before
  step-open more s t (stopped s' closed before busy) still = still

  Steps-open :
      (s t : System S)
      → Steps process requests closure s t
      → t.quit_closed ≡ false
      → s.quit_closed ≡ false
  Steps-open s t (stay s') still = still
  Steps-open s t (go more s' r t' step steps) still =
      step-open more s r step (Steps-open r t steps still)

  -- Once the loop has exited, on an error of lnd say, a call of RegisterHandler or DeregisterHandler that passed
  -- the checks stays at the first select through all steps after which Stop was not called.
  pub Steps-Hangs :
      (i : ℕ) (s t : System S)
      → Hangs i s
      → Steps process requests closure s t
      → t.quit_closed ≡ false
      → Hangs i t
  Steps-Hangs i s t h (stay s') still = h
  Steps-Hangs i s t h (go more s' r t' step steps) still =
      Steps-Hangs i r t (step-Hangs more i s r h step (Steps-open r t steps still)) steps still
