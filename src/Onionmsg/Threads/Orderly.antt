-- ===== src/Onionmsg/Threads/Orderly.antt =====
-- The end of the messenger's goroutine, its request for a shutdown, and the router (onionmsg/messenger.go, Start
-- and Stop).
use boltnd.Prelude.{
  ℕ, ◌≡◌, ◌≢◌, sym, ◌∙◌, ◌⊎◌, inl, inr, refl, Bool, true, false, List, [], ◌∷◌, ◌==◌, Bytes,
  Bool-cases,
}
use boltnd.Prelude.Errors.{Error, Result, ok, err, panic, stuck, Returns, shutting_down}
use boltnd.Prelude.Exec.{Exec}
use boltnd.Lnwire.Payload.{onion_message_type}
use boltnd.Onionmsg.Handlers.{Handlers, Registration}
use boltnd.Onionmsg.Messenger.{
  Event, requested, message, messages_closed, errors_closed, quit, stream_error, after_message,
  on_message, on_event,
}
use boltnd.Onionmsg.Threads.{
  Worker, subscribing, waiting, exited, requesting, registering, handling, ended, System,
  next_worker, shutdown_request, shutdown_request-cases, IsReady, Step, called, rejected, offered,
  registered, received, abandoned, unanswered, subscribed, unsubscribed, arrived, handled, met,
  requests_shutdown, leaves, shutdown_returned, stopping, stopped, Reached, begun, later,
}

-- An end of the loop: by an error other than ErrShuttingDown, or by ErrShuttingDown after Stop closed `quit`. A
-- panic ends the program, and a handler that never returns is no end.
abbrev pub IsEnding : Result (Unit {0}) → Bool → Type 0
IsEnding (ok _) closed = ⊥
IsEnding (err e) closed = (e ≢ shutting_down) ⊎ ((e ≡ shutting_down) × (closed ≡ true))
IsEnding panic closed = Unit
IsEnding stuck closed = Unit

-- `closed` is that of the channel `quit`, `router_stopped` the end of Stop, `shutdown` what requestShutdown was
-- called with.
abbrev pub IsOrderly : Worker → Bool → Bool → List Error → Type 0
IsOrderly exited closed router_stopped shutdown =
    ((router_stopped ≡ false) ⊎ (closed ≡ true))
    × (((shutdown ≡ []) × (closed ≡ true))
        ⊎ ((e : Error) × (shutdown ≡ e ∷ []) × (e ≢ shutting_down)))
IsOrderly (ended r) closed router_stopped shutdown =
    (router_stopped ≡ false) × (shutdown ≡ []) × (IsEnding r closed)
IsOrderly requesting closed router_stopped shutdown =
    (router_stopped ≡ false) × ((e : Error) × (shutdown ≡ e ∷ []) × (e ≢ shutting_down))
IsOrderly _ closed router_stopped shutdown = (router_stopped ≡ false) × (shutdown ≡ [])

IsEnding-stop : (r : Result (Unit {0})) (closed : Bool) → IsEnding r closed → IsEnding r true
IsEnding-stop (ok _) closed h = h
IsEnding-stop (err e) closed (inl h) = inl h
IsEnding-stop (err e) closed (inr (none_requested, _)) = inr (none_requested, refl)
IsEnding-stop panic closed h = tt
IsEnding-stop stuck closed h = tt

IsOrderly-stop :
    (w : Worker) (closed router_stopped : Bool) (shutdown : List Error)
    → IsOrderly w closed router_stopped shutdown
    → IsOrderly w true router_stopped shutdown
IsOrderly-stop exited closed router shutdown (first, inl (none_requested, _)) =
    (inr refl, inl (none_requested, refl))
IsOrderly-stop exited closed router shutdown (first, inr asked) = (inr refl, inr asked)
IsOrderly-stop (ended r) closed router shutdown (still, empty, end) =
    (still, empty, IsEnding-stop r closed end)
IsOrderly-stop subscribing closed router shutdown h = h
IsOrderly-stop waiting closed router shutdown h = h
IsOrderly-stop requesting closed router shutdown h = h
IsOrderly-stop (registering i) closed router shutdown h = h
IsOrderly-stop (handling t d) closed router shutdown h = h

filled : {e : Error} {es : List Error} → ◌≡◌ {A = List Error} [] (e ∷ es) → ⊥
filled h = cc

-- The errors that a shutdown is requested for, and those that it is not.
asks-other : (e : Error) → shutdown_request (err e) ≡ e ∷ [] → e ≢ shutting_down
asks-other e asks = elim (shutdown_request-cases e) [
  | inl (_, other) ↦ other
  | inr (quiet, _) ↦ λ same. filled (sym quiet ∙ asks)
]

quiet-sentinel : (e : Error) → shutdown_request (err e) ≡ [] → e ≡ shutting_down
quiet-sentinel e quiet = elim (shutdown_request-cases e) [
  | inl (asks, _) ↦ absurd (filled (sym quiet ∙ asks))
  | inr (_, sentinel) ↦ sentinel
]

-- The end of a goroutine that asks for no shutdown.
IsOrderly-leaves :
    (r : Result (Unit {0})) (closed router : Bool) (shutdown : List Error)
    → Returns r
    → shutdown_request r ≡ []
    → IsOrderly (ended r) closed router shutdown
    → IsOrderly exited closed router shutdown
IsOrderly-leaves (ok _) closed router shutdown returns quiet (still, empty, end) = absurd end
IsOrderly-leaves (err e) closed router shutdown returns quiet (still, empty, inl other) =
    absurd (other (quiet-sentinel e quiet))
IsOrderly-leaves (err e) closed router shutdown returns quiet (still, empty, inr (h, at_stop)) =
    (inl still, inl (empty, at_stop))
IsOrderly-leaves panic closed router shutdown returns quiet h = absurd returns
IsOrderly-leaves stuck closed router shutdown returns quiet h = absurd returns

module _ {S : Type 0} (process : Handlers S → Bytes → Exec S (Unit {0})) where
  -- A message ends the loop only by a panic, or never comes to an end.
  message-ends :
      (t : ℕ) (d : Bytes) (m : Handlers S) (s : S) (closed : Bool)
      → IsOrderly (next_worker (on_message process t d m s).end) closed false []
  unfolding on_message after_message
  message-ends t d m s closed = elim (Bool-cases (t == onion_message_type)) [
    | inl onion ↦ rw onion (after (process m d s).0)
    | inr other ↦ rw other (refl, refl)
  ]
    where
      after :
          (r : Result (Unit {0}))
          → IsOrderly (next_worker (after_message process r)) closed false []
      after (ok _) = (refl, refl)
      after (err e) = (refl, refl)
      after panic = (refl, refl, tt)
      after stuck = (refl, refl, tt)

  event-ends :
      (e : Event S) (m : Handlers S) (s : S) (closed : Bool)
      → IsReady e closed
      → IsOrderly (next_worker (on_event process e m s).end) closed false []
  unfolding on_event
  event-ends (requested r) m s closed ready = absurd ready
  event-ends (message t d) m s closed ready = absurd ready
  event-ends messages_closed m s closed ready = (refl, refl, inl (λ h. cc))
  event-ends errors_closed m s closed ready = (refl, refl, inl (λ h. cc))
  event-ends quit m s closed ready = (refl, refl, inr (refl, ready))
  event-ends (stream_error e) m s closed ready = (refl, refl, inl (λ h. cc))

  module _ (requests : ℕ → Registration S) (closure : System S → Type 0) where
    abbrev pub Orderly : System S → Type 0
    Orderly s = IsOrderly s.worker s.quit_closed s.router_stopped s.shutdown

    step-Orderly :
        (more : List ℕ) (s t : System S)
        → Orderly s
        → Step process requests closure more s t
        → Orderly t
    step-Orderly more s t h (called i s' at good) = h
    step-Orderly more s t h (rejected i e s' at bad) = h
    step-Orderly more s t h (offered i s' at idle) = rw idle at h
    step-Orderly more s t h (registered i s' at) = rw at at h
    step-Orderly more s t h (received i a s' at there) = h
    step-Orderly more s t h (abandoned i s' at closed) = h
    step-Orderly more s t h (unanswered i s' at closed) = h
    step-Orderly more s t h (subscribed s' at) = rw at at h
    step-Orderly more s t h (unsubscribed n s' at) =
        let (still, empty) = rw at at h in (still, empty, inl (λ h. cc))
    step-Orderly more s t h (arrived type d s' at) = rw at at h
    step-Orderly more s t h (handled type d s' at) =
        let (still, empty) = rw at at h in
        rw (still, empty) (message-ends type d s.handlers s.world s.quit_closed)
    step-Orderly more s t h (met e s' at ready) =
        let (still, empty) = rw at at h in
        rw (still, empty) (event-ends e s.handlers s.world s.quit_closed ready)
    step-Orderly more s t h (requests_shutdown e s' at asks) =
        let (still, empty, _) = rw at at h in (still, (e, rw empty, asks-other e asks))
    step-Orderly more s t h (leaves r s' at returns quiet) =
        IsOrderly-leaves r s.quit_closed s.router_stopped s.shutdown returns quiet (rw at at h)
    step-Orderly more s t h (shutdown_returned s' at back) =
        let (still, asked) = rw at at h in (inl still, inr asked)
    step-Orderly more s t h (stopping s' before) =
        IsOrderly-stop s.worker s.quit_closed s.router_stopped s.shutdown h
    step-Orderly more s t h (stopped s' closed before at) =
        let (_, how) = rw at at h in rw at (inr closed, how)

    -- Whatever the scheduler chooses: the router is stopped only when the loop's goroutine has exited, and Stop was
    -- called; no shutdown is requested before manageOnionMessages has returned; in requestShutdown, one was requested,
    -- with an error other than ErrShuttingDown; and when the goroutine has exited, either that was so, and only
    -- once, or Stop was called and no shutdown was requested.
    pub Reached-Orderly :
        (world : S) (taken : List ℕ) (s : System S)
        → Reached process requests closure world taken s
        → Orderly s
    Reached-Orderly world taken s begun = (refl, refl)
    Reached-Orderly world taken s (later before more r t reached step) =
        step-Orderly more r s (Reached-Orderly world before r reached) step
