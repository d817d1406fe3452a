-- ===== src/Onionmsg/Threads.antt =====
-- onionmsg/messenger.go: the goroutines of a messenger whose Start has returned, as the steps that the scheduler
-- can choose: the event loop, the clients inside RegisterHandler and DeregisterHandler, and Stop.
pub mod Serial
pub mod Calls
pub mod Linear
pub mod Orderly
pub mod Stopping
mod Runs
use boltnd.Prelude.{
  Bool-cases, ◌≢◌, ap, ℕ, Bool, true, false, Option, none, some, List, [], ◌∷◌, ◌++◌, ◌≡◌, ◌⊎◌, inl,
  inr, refl, ◌==◌, Bytes, if◌then◌else◌,
}
use boltnd.Prelude.Errors.{
  Error, Result, ok, err, panic, stuck, Returns, wrapped, not_started, shutting_down, foreign, wrap,
  guard, ◌>>=◌, ◌>>◌,
}
use boltnd.Prelude.Exec.{Exec}
use boltnd.Lnwire.Payload.{validate_final_payload}
use boltnd.Onionmsg.Handlers.{Handlers, Registration, register_handler}
use boltnd.Onionmsg.Messenger.{
  quit_before, quit_after, answered, await_answer, Event, requested, message, messages_closed,
  errors_closed, quit, stream_error, on_event, on_message,
}

-- Where a call of RegisterHandler or DeregisterHandler is: not made, at the first select, at the second,
-- or back with its result.
pub data Stage : Type 0 where
  fresh offering awaiting : Stage
  returned : Result (Unit {0}) → Stage

-- Where the goroutine that Start launches is: before lnd's answer to SubscribeCustomMessages, at the select,
-- between a request and its answer, in handleOnionMessage, past manageOnionMessages, in requestShutdown, or past
-- wg.Done.
pub data Worker : Type 0 where
  subscribing waiting requesting exited : Worker
  registering : ℕ → Worker
  handling : ℕ → Bytes → Worker
  ended : Result (Unit {0}) → Worker

-- The calls are numbered. The answer of a call is what its errChan carries, a closed channel being ok.
pub record System (S : Type 0) : Type 0 where
  pub worker : Worker
  pub handlers : Handlers S
  pub world : S
  pub stages : ℕ → Stage
  pub answers : ℕ → Option (Result (Unit {0}))
  pub quit_closed : Bool
  pub router_stopped : Bool
  pub shutdown : List Error

unfoldable pub update {ℓ} : {A : Type ℓ} → (ℕ → A) → ℕ → A → ℕ → A
update f i a j = if i == j then a else f j

-- NewOnionMessenger and the goroutine's start: no handlers, and no call yet.
abbrev pub new_system : {S : Type 0} → S → System S
new_system world = record {
  worker = subscribing;
  handlers = [];
  world = world;
  stages = λ i. fresh;
  answers = λ i. none;
  quit_closed = false;
  router_stopped = false;
  shutdown = [];
}

-- The checks of handleRegistration, on a messenger that has started.
abbrev pub checks : {S : Type 0} → Registration S → Result (Unit {0})
checks r = wrap (validate_final_payload r.tlv_type) >> guard true (wrapped not_started)

abbrev pub move : {S : Type 0} → ℕ → Stage → System S → System S
move i stage s = record s { stages = update s.stages i stage }

abbrev pub next_worker : Option (Result (Unit {0})) → Worker
next_worker none = waiting
next_worker (some r) = ended r

-- `err != ErrShuttingDown` compares with the sentinel itself, not with what wraps it.
abbrev is_shutting_down : Error → Bool
is_shutting_down shutting_down = true
is_shutting_down _ = false

unfoldable pub shutdown_request : Result (Unit {0}) → List Error
shutdown_request (err e) = if is_shutting_down e then [] else e ∷ []
shutdown_request r = []

sentinel-eq : (e : Error) → is_shutting_down e ≡ true → e ≡ shutting_down
sentinel-eq shutting_down h = refl
sentinel-eq _ h = cc

not_sentinel : (e : Error) → is_shutting_down e ≡ false → e ≢ shutting_down
not_sentinel e other same =
    let sentinel : is_shutting_down e ≡ true = ap is_shutting_down same in cc

-- Every error but the sentinel calls for a shutdown.
pub shutdown_request-cases :
    (e : Error)
    → ((shutdown_request (err e) ≡ e ∷ []) × (e ≢ shutting_down))
      ⊎ ((shutdown_request (err e) ≡ []) × (e ≡ shutting_down))
unfolding shutdown_request
shutdown_request-cases e = elim (Bool-cases (is_shutting_down e)) [
  | inl sentinel ↦ inr (rw sentinel, sentinel-eq e sentinel)
  | inr other ↦ inl (rw other, not_sentinel e other)
]

-- The events of the select that are no request and no message.
abbrev pub IsReady : {S : Type 0} → Event S → Bool → Type 0
IsReady (requested r) closed = ⊥
IsReady (message t d) closed = ⊥
IsReady messages_closed closed = Unit
IsReady errors_closed closed = Unit
IsReady quit closed = closed ≡ true
IsReady (stream_error e) closed = Unit

module _ {S : Type 0} (process : Handlers S → Bytes → Exec S (Unit {0}))
    (requests : ℕ → Registration S) where
  -- The loop applies the request and answers on its errChan, which never blocks it.
  abbrev pub answer : ℕ → System S → System S
  answer i s = record s {
    worker = waiting;
    handlers = (register_handler (requests i) s.handlers).1;
    answers = update s.answers i (some (register_handler (requests i) s.handlers).0);
  }

  -- When the closure of requestShutdown, which the messenger's owner supplies, can come back: `closure` says so of the
  -- system.
  module _ (closure : System S → Type 0) where
    -- One step of one goroutine, and the call that takes effect with it, if any.
    pub data Step : List ℕ → System S → System S → Type 0 where
      called :
          (i : ℕ) (s : System S)
          → s.stages i ≡ fresh
          → checks (requests i) ≡ ok tt
          → Step [] s (move i offering s)
      rejected :
          (i : ℕ) (e : Error) (s : System S)
          → s.stages i ≡ fresh
          → checks (requests i) ≡ err e
          → Step [] s (move i (returned (err e)) s)
      offered :
          (i : ℕ) (s : System S)
          → s.stages i ≡ offering
          → s.worker ≡ waiting
          → Step [] s (record (move i awaiting s) { worker = registering i })
      registered : (i : ℕ) (s : System S) → s.worker ≡ registering i → Step (i ∷ []) s (answer i s)
      received :
          (i : ℕ) (a : Result (Unit {0})) (s : System S)
          → s.stages i ≡ awaiting
          → s.answers i ≡ some a
          → Step [] s (move i (returned (await_answer answered a)) s)
      abandoned :
          (i : ℕ) (s : System S)
          → s.stages i ≡ offering
          → s.quit_closed ≡ true
          → Step [] s (move i (returned (await_answer quit_before (ok tt))) s)
      unanswered :
          (i : ℕ) (s : System S)
          → s.stages i ≡ awaiting
          → s.quit_closed ≡ true
          → Step [] s (move i (returned (await_answer quit_after (ok tt))) s)
      subscribed :
          (s : System S) → s.worker ≡ subscribing → Step [] s (record s { worker = waiting })
      unsubscribed :
          (n : ℕ) (s : System S)
          → s.worker ≡ subscribing
          → Step [] s (record s { worker = ended (err (foreign n)) })
      arrived :
          (t : ℕ) (d : Bytes) (s : System S)
          → s.worker ≡ waiting
          → Step [] s (record s { worker = handling t d })
      handled :
          (t : ℕ) (d : Bytes) (s : System S)
          → s.worker ≡ handling t d
          → Step [] s (record s {
            worker = next_worker (on_message process t d s.handlers s.world).end;
            world = (on_message process t d s.handlers s.world).world;
          })
      met :
          (e : Event S) (s : System S)
          → s.worker ≡ waiting
          → IsReady e s.quit_closed
          → Step [] s
              (record s { worker = next_worker (on_event process e s.handlers s.world).end })
      -- The goroutine calls requestShutdown before the deferred wg.Done, which waits for the closure.
      requests_shutdown :
          (e : Error) (s : System S)
          → s.worker ≡ ended (err e)
          → shutdown_request (err e) ≡ e ∷ []
          → Step [] s (record s { worker = requesting; shutdown = s.shutdown ++ e ∷ [] })
      leaves :
          (r : Result (Unit {0})) (s : System S)
          → s.worker ≡ ended r
          → Returns r
          → shutdown_request r ≡ []
          → Step [] s (record s { worker = exited })
      shutdown_returned :
          (s : System S)
          → s.worker ≡ requesting
          → closure s
          → Step [] s (record s { worker = exited })
      -- Stop closes `quit`, waits for the group, and then stops the router.
      stopping :
          (s : System S) → s.quit_closed ≡ false → Step [] s (record s { quit_closed = true })
      stopped :
          (s : System S)
          → s.quit_closed ≡ true
          → s.router_stopped ≡ false
          → s.worker ≡ exited
          → Step [] s (record s { router_stopped = true })

    -- The systems that steps lead to, with the calls that took effect, in their order.
    pub data Reached (world : S) : List ℕ → System S → Type 0 where
      begun : Reached world [] (new_system world)
      later :
          (taken more : List ℕ) (s t : System S)
          → Reached world taken s
          → Step more s t
          → Reached world (taken ++ more) t

    -- Steps that go on from a system.
    pub data Steps : System S → System S → Type 0 where
      stay : (s : System S) → Steps s s
      go : (more : List ℕ) (s t u : System S) → Step more s t → Steps t u → Steps s u
