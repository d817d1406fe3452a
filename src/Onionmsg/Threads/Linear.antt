-- ===== src/Onionmsg/Threads/Linear.antt =====
-- The calls of a messenger's clients as they take effect (onionmsg/messenger.go, handleRegistration and
-- manageOnionMessages).
use mathlib.Core.List.{append-nil}
use boltnd.Prelude.{
  ℕ, ◌+◌, ◌≤◌, ◌≡◌, inl, inr, refl, sym, ap, ◌∙◌, true, Option, none, some, List, [], ◌++◌, ◌==◌,
  Bytes, arith,
}
use boltnd.Prelude.Errors.{Error, Result, ok, err}
use boltnd.Prelude.Exec.{Exec}
use boltnd.Onionmsg.Handlers.{Handlers, Registration, register_handler}
use boltnd.Onionmsg.Messenger.{quit_before, answered, await_answer, submit, handle_registration}
use boltnd.Onionmsg.Threads.{
  Stage, fresh, offering, awaiting, returned, Worker, waiting, exited, requesting, registering,
  handling, ended, System, update, checks, next_worker, Step, called, rejected, offered, registered,
  received, abandoned, unanswered, subscribed, unsubscribed, arrived, handled, met,
  requests_shutdown, leaves, shutdown_returned, stopping, stopped, Reached, begun, later,
}
use boltnd.Onionmsg.Threads.Serial.{
  running, effects, held, IsBalanced, Serial, moved, passed, serve,
}

next_worker-held : (end : Option (Result (Unit {0}))) (j : ℕ) → held j (next_worker end) ≡ 0
next_worker-held none j = refl
next_worker-held (some r) j = refl

held_at : {w v : Worker} → w ≡ v → ((j : ℕ) → held j v ≡ 0) → (j : ℕ) → held j w ≡ 0
held_at e none_held j = rw e (none_held j)

module _ {S : Type 0} (requests : ℕ → Registration S) where
  abbrev pub IsSerial : List ℕ → System S → Type 0
  IsSerial taken s = Serial requests taken s.handlers s.worker s.stages s.answers

  abbrev Balanced : ℕ → List ℕ → Worker → Stage → Type 0
  Balanced i taken w stage = IsBalanced requests i (effects i taken + held i w) stage

  -- What the checks and the channel `quit` make of a call, whatever the map is.
  refused_alone :
      (i : ℕ) (e : Error)
      → checks (requests i) ≡ err e
      → err e ≡ (handle_registration running quit_before (requests i) []).0
  unfolding handle_registration submit
  refused_alone i e refused = rw refused

  quit_alone :
      (i : ℕ)
      → checks (requests i) ≡ ok tt
      → await_answer quit_before (ok tt)
        ≡ (handle_registration running quit_before (requests i) []).0
  unfolding handle_registration submit await_answer
  quit_alone i good = rw good

  answered_alone :
      (i : ℕ) (m : Handlers S)
      → checks (requests i) ≡ ok tt
      → await_answer answered (register_handler (requests i) m).0
        ≡ (handle_registration running answered (requests i) m).0
  unfolding handle_registration submit
  answered_alone i m good = rw good

  called-IsSerial :
      (i : ℕ) (taken : List ℕ) (s : System S)
      → IsSerial taken s
      → s.stages i ≡ fresh
      → checks (requests i) ≡ ok tt
      → Serial requests taken s.handlers s.worker (update s.stages i offering) s.answers
  called-IsSerial i taken s h at good =
      moved requests i offering h (λ j _. refl) (good, rw at at (h.balanced i)) tt

  rejected-IsSerial :
      (i : ℕ) (e : Error) (taken : List ℕ) (s : System S)
      → IsSerial taken s
      → s.stages i ≡ fresh
      → checks (requests i) ≡ err e
      → Serial requests taken s.handlers s.worker (update s.stages i (returned (err e))) s.answers
  rejected-IsSerial i e taken s h at bad =
      let zero_effects : effects i taken + held i s.worker ≡ 0 = rw at at (h.balanced i) in
      moved requests i (returned (err e)) h (λ j _. refl) (omega arith, inr zero_effects)
        (inr (refused_alone i e bad))

  offered-IsSerial :
      (i : ℕ) (taken : List ℕ) (s : System S)
      → IsSerial taken s
      → s.stages i ≡ offering
      → s.worker ≡ waiting
      → Serial requests taken s.handlers (registering i) (update s.stages i awaiting) s.answers
  offered-IsSerial i taken s h at idle =
      let (good, n) = called_before (rw at at (h.balanced i)) in
      let here : (i == i) ≡ true = ground arith in
      moved requests i awaiting h (λ j other. rw (other, idle))
        (good, rw here (omega (arith, (rw idle at n)))) tt
    where
      called_before :
          IsBalanced requests i (effects i taken + held i s.worker) offering
          → (checks (requests i) ≡ ok tt) × (effects i taken + held i s.worker ≡ 0)
      called_before b = b

  -- A call that finds `quit` closed.
  quit-IsSerial :
      (i : ℕ) (taken : List ℕ) (s : System S)
      → IsSerial taken s
      → checks (requests i) ≡ ok tt
      → effects i taken + held i s.worker ≤ 1
      → Serial requests taken s.handlers s.worker
          (update s.stages i (returned (await_answer quit_before (ok tt))))
          s.answers
  quit-IsSerial i taken s h good few =
      moved requests i _ h (λ j _. refl) (few, inl good) (inr (quit_alone i good))

  received-IsSerial :
      (i : ℕ) (a : Result (Unit {0})) (taken : List ℕ) (s : System S)
      → IsSerial taken s
      → s.stages i ≡ awaiting
      → s.answers i ≡ some a
      → Serial requests taken s.handlers s.worker
          (update s.stages i (returned (await_answer answered a)))
          s.answers
  received-IsSerial i a taken s h at there =
      let (good, one) = rw at at (h.balanced i) in
      let (before, place, e) = rw there at (h.heard i) in
      moved requests i _ h (λ j _. refl) (omega arith, inl good)
        (inl (before, place, ap (await_answer answered) e ∙ answered_alone i _ good))

  idle-IsSerial :
      {w : Worker} (v : Worker) (taken : List ℕ) (s : System S)
      → IsSerial taken s
      → s.worker ≡ w
      → ((j : ℕ) → held j w ≡ 0)
      → ((j : ℕ) → held j v ≡ 0)
      → Serial requests taken s.handlers v s.stages s.answers
  idle-IsSerial v taken s h at none_before none_after =
      passed requests h (λ j. none_after j ∙ sym (held_at at none_before j))

  module _ (process : Handlers S → Bytes → Exec S (Unit {0})) (closure : System S → Type 0) where
    step-IsSerial :
        (taken more : List ℕ) (s t : System S)
        → IsSerial taken s
        → Step process requests closure more s t
        → IsSerial (taken ++ more) t
    step-IsSerial taken more s t h (called i s' at good) =
        rw (append-nil taken) (called-IsSerial i taken s h at good)
    step-IsSerial taken more s t h (rejected i e s' at bad) =
        rw (append-nil taken) (rejected-IsSerial i e taken s h at bad)
    step-IsSerial taken more s t h (offered i s' at idle) =
        rw (append-nil taken) (offered-IsSerial i taken s h at idle)
    step-IsSerial taken more s t h (registered i s' at) =
        serve requests i (passed requests h (λ j. ap (held j) (sym at)))
    step-IsSerial taken more s t h (received i a s' at there) =
        rw (append-nil taken) (received-IsSerial i a taken s h at there)
    step-IsSerial taken more s t h (abandoned i s' at closed) =
        let (good, n) = rw at at (h.balanced i) in
        rw (append-nil taken) (quit-IsSerial i taken s h good (omega arith))
    step-IsSerial taken more s t h (unanswered i s' at closed) =
        let (good, n) = rw at at (h.balanced i) in
        rw (append-nil taken) (unfold await_answer in quit-IsSerial i taken s h good (omega arith))
    step-IsSerial taken more s t h (subscribed s' at) =
        rw (append-nil taken) (idle-IsSerial waiting taken s h at (λ _. refl) (λ _. refl))
    step-IsSerial taken more s t h (unsubscribed n s' at) =
        rw (append-nil taken) (idle-IsSerial (ended _) taken s h at (λ _. refl) (λ _. refl))
    step-IsSerial taken more s t h (arrived type d s' at) =
        rw (append-nil taken) (idle-IsSerial (handling type d) taken s h at (λ _. refl) (λ _. refl))
    step-IsSerial taken more s t h (handled type d s' at) =
        rw (append-nil taken)
          (idle-IsSerial (next_worker _) taken s h at (λ _. refl) (next_worker-held _))
    step-IsSerial taken more s t h (met e s' at ready) =
        rw (append-nil taken)
          (idle-IsSerial (next_worker _) taken s h at (λ _. refl) (next_worker-held _))
    step-IsSerial taken more s t h (requests_shutdown e s' at asks) =
        rw (append-nil taken) (idle-IsSerial requesting taken s h at (λ _. refl) (λ _. refl))
    step-IsSerial taken more s t h (leaves r s' at returns quiet) =
        rw (append-nil taken) (idle-IsSerial exited taken s h at (λ _. refl) (λ _. refl))
    step-IsSerial taken more s t h (shutdown_returned s' at back) =
        rw (append-nil taken) (idle-IsSerial exited taken s h at (λ _. refl) (λ _. refl))
    step-IsSerial taken more s t h (stopping s' before) = rw (append-nil taken) h
    step-IsSerial taken more s t h (stopped s' closed before at) = rw (append-nil taken) h

    -- Whatever the scheduler chooses, the map is what the calls that took effect make of the empty one, one after
    -- the other; a call takes effect at most once, and only if it passed the checks; a call that waits for its
    -- answer has taken effect once or is held by the loop; and a call that is back has the result of
    -- handle_registration, run alone on the map of the calls before it, or the result it has when it fails the
    -- checks or finds the channel `quit` closed.
    pub Reached-IsSerial :
        (world : S) (taken : List ℕ) (s : System S)
        → Reached process requests closure world taken s
        → IsSerial taken s
    Reached-IsSerial world taken s begun = record {
      served = refl;
      balanced = λ i. omega arith;
      heard = λ i. refl;
      explained = λ i. tt;
    }
    Reached-IsSerial world taken s (later before more r t reached step) =
        step-IsSerial before more r s (Reached-IsSerial world before r reached) step
