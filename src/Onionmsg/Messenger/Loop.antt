-- ===== src/Onionmsg/Messenger/Loop.antt =====
-- What the event loop keeps (onionmsg/messenger.go, manageOnionMessages and handleRegistration).
use boltnd.Prelude.{
  ℕ, true, false, Option, none, some, List, [], ◌∷◌, ◌≡◌, ◌≤◌, refl, ap, ◌∙◌, ◌==◌, All, Bytes,
  arith, Bool-cases, inl, inr, ltb, ==_iff,
}
use boltnd.Prelude.Errors.{
  Error, Result, ok, err, panic, stuck, Returns, >>=-eq-ok, wrapped, not_started, shutting_down,
  lnd_shutdown, wrap, guard,
}
use boltnd.Prelude.Exec.{Exec}
use boltnd.Lnwire.Payload.{validate_final_payload, onion_message_type}
use boltnd.Onionmsg.Handlers.{
  Handler, Handlers, Registration, lookup, delete, insert, deregister, register, registration,
  register_handler,
}
use boltnd.Onionmsg.Handlers.Registry.{register_handler-lookup, register_handler-answer}
use boltnd.Onionmsg.Messenger.{
  Life, Race, quit_before, quit_after, answered, await_answer, taken, submit, handle_registration,
  Event, requested, message, messages_closed, errors_closed, quit, stream_error, LoopState,
  after_message, on_message, on_event, run_loop,
}

module _ {S : Type 0} where
  -- The handlers that the registrations among the events leave, up to the first event that ends the loop.
  abbrev pub served : List (Event S) → Handlers S → Handlers S
  served [] m = m
  served (requested r ∷ es) m = served es (register_handler r m).1
  served (message t d ∷ es) m = served es m
  served (messages_closed ∷ es) m = m
  served (errors_closed ∷ es) m = m
  served (quit ∷ es) m = m
  served (stream_error e ∷ es) m = m

  -- How the loop ends on the events, if one of them ends it.
  abbrev pub ending : List (Event S) → Option (Result (Unit {0}))
  ending [] = none
  ending (requested r ∷ es) = ending es
  ending (message t d ∷ es) = ending es
  ending (messages_closed ∷ es) = some (err (wrapped lnd_shutdown))
  ending (errors_closed ∷ es) = some (err (wrapped lnd_shutdown))
  ending (quit ∷ es) = some (err shutting_down)
  ending (stream_error e ∷ es) = some (err (wrapped e))

abbrev pub loop_state : {S : Type 0} → Option (Result (Unit {0})) → Handlers S → S → LoopState S
loop_state r m s = record { end = r; handlers = m; world = s }

module _ {S : Type 0} (process : Handlers S → Bytes → Exec S (Unit {0})) where
  run_loop-ended :
      (es : List (Event S)) (r : Result (Unit {0})) (m : Handlers S) (s : S)
      → run_loop process es (loop_state (some r) m s) ≡ loop_state (some r) m s
  unfolding run_loop
  run_loop-ended [] r m s = refl
  run_loop-ended (e ∷ es) r m s = refl

  on_message-waits :
      ((m : Handlers S) (bytes : Bytes) (s : S) → Returns (process m bytes s).0)
      → (t : ℕ) (bytes : Bytes) (m : Handlers S) (s : S)
      → (w : S) × (on_message process t bytes m s ≡ loop_state none m w)
  unfolding on_message after_message
  on_message-waits returns t bytes m s = elim (Bool-cases (t == onion_message_type)) [
    | inl onion ↦ rw onion (after (process m bytes s).0 (process m bytes s).1 (returns m bytes s))
    | inr other ↦ rw other (s, refl)
  ]
    where
      after :
          (r : Result (Unit {0})) (u : S)
          → Returns r
          → (w : S) × (loop_state (after_message process r) m u ≡ loop_state none m w)
      after (ok _) u h = (u, refl)
      after (err e) u h = (u, refl)
      after panic u h = absurd h
      after stuck u h = absurd h

  -- Where the processing of a message never panics, the loop ends only as its closed streams, a
  -- stream's error and the quit channel end it, and until then it applies every registration to the
  -- handlers: a message, however its processing fails, neither ends the loop nor changes the
  -- handlers.
  pub run_loop-serves :
      ((m : Handlers S) (bytes : Bytes) (s : S) → Returns (process m bytes s).0)
      → (es : List (Event S)) (m : Handlers S) (s : S)
      → (w : S) × (run_loop process es (loop_state none m s)
          ≡ loop_state (ending es) (served es m) w)
  unfolding run_loop on_event
  run_loop-serves returns [] m s = (s, refl)
  run_loop-serves returns (requested r ∷ es) m s =
      run_loop-serves returns es (register_handler r m).1 s
  run_loop-serves returns (message t bytes ∷ es) m s =
      let (w, e) = on_message-waits returns t bytes m s in
      let (v, d) = run_loop-serves returns es m w in (v, ap (run_loop process es) e ∙ d)
  run_loop-serves returns (messages_closed ∷ es) m s = (s, run_loop-ended es _ m s)
  run_loop-serves returns (errors_closed ∷ es) m s = (s, run_loop-ended es _ m s)
  run_loop-serves returns (quit ∷ es) m s = (s, run_loop-ended es _ m s)
  run_loop-serves returns (stream_error e ∷ es) m s = (s, run_loop-ended es _ m s)

module _ {S : Type 0} where
  -- The type of an entry is one of a final hop payload.
  abbrev pub Final : ℕ × Handler S → Type 0
  Final entry = 64 ≤ entry.0

  delete-Final : (t : ℕ) (m : Handlers S) → All Final m → All Final (delete t m)
  unfolding delete
  delete-Final t [] h = tt
  delete-Final t ((u, k) ∷ m) h =
      let rest = delete-Final t m h.1 in
      elim (Bool-cases (u == t)) [ inl e ↦ rw e rest | inr e ↦ rw e (h.0, rest) ]

  registration-Final :
      (t : ℕ) (o : Option (Handler S)) (m : Handlers S)
      → 64 ≤ t
      → All Final m
      → All Final (registration t o m).1
  unfolding registration
  registration-Final t none m final h = after (lookup t m)
    where
      after : (old : Option (Handler S)) → All Final (deregister old t m).1
      after none = unfold deregister in h
      after (some k) = unfold deregister in delete-Final t m h
  registration-Final t (some k) m final h = after (lookup t m)
    where
      after : (old : Option (Handler S)) → All Final (register old t k m).1
      after none = unfold register insert in (final, delete-Final t m h)
      after (some _) = unfold register in h

  submit-Final :
      (race : Race) (r : Registration S) (m : Handlers S) (checks : Result (Unit {0}))
      → (checks ≡ ok tt → 64 ≤ r.tlv_type)
      → All Final m
      → All Final (submit race r m checks).1
  unfolding submit taken register_handler
  submit-Final quit_before r m (ok _) final h = h
  submit-Final quit_after r m (ok _) final h =
      registration-Final r.tlv_type r.handler m (final refl) h
  submit-Final answered r m (ok _) final h =
      registration-Final r.tlv_type r.handler m (final refl) h
  submit-Final race r m (err e) final h = h
  submit-Final race r m panic final h = h
  submit-Final race r m stuck final h = h

  -- A client's request, on whatever race of the loop with the quit channel, leaves a map whose types are
  -- all types of final hop payloads, if they were before.
  pub handle_registration-Final :
      (life : Life) (race : Race) (r : Registration S) (m : Handlers S)
      → All Final m
      → All Final (handle_registration life race r m).1
  unfolding handle_registration
  handle_registration-Final life race r m h =
      submit-Final race r m _
        (λ e.
          checked r.tlv_type
            (>>=-eq-ok (wrap (validate_final_payload r.tlv_type))
              (λ _. guard life.started (wrapped not_started)) e).1)
        h
    where
      refused : {e : Error} {u : Unit {0}} → ◌≡◌ {A = Result (Unit {0})} (err e) (ok u) → ⊥
      refused h = cc

      checked : (t : ℕ) {u : Unit {0}} → wrap (validate_final_payload t) ≡ ok u → 64 ≤ t
      checked t e = elim (Bool-cases (ltb t 64)) [
        | inl small ↦ absurd (refused (unfold validate_final_payload in rw small at e))
        | inr big ↦ ground (arith, big)
      ]

  abbrev pub to_register : ℕ → Handler S → Registration S
  to_register t h = record { tlv_type = t; handler = some h }

  abbrev pub to_deregister : ℕ → Registration S
  to_deregister t = record { tlv_type = t; handler = none }

  handle_registration-runs :
      (life : Life) (r : Registration S) (m : Handlers S)
      → life.started ≡ true
      → 64 ≤ r.tlv_type
      → handle_registration life answered r m
        ≡ (wrap (register_handler r m).0, (register_handler r m).1)
  unfolding handle_registration validate_final_payload submit await_answer taken
  handle_registration-runs life r m started final = rw (started, not_small)
    where
      not_small : ltb r.tlv_type 64 ≡ false
      not_small = ground arith

  -- On a messenger that runs, RegisterHandler for a free type of a final hop payload succeeds, the type has
  -- the handler from then on, DeregisterHandler succeeds too, and every lookup is as it was before.
  pub register-deregister :
      (life : Life) (t : ℕ) (h : Handler S) (m : Handlers S) (u : ℕ)
      → life.started ≡ true
      → 64 ≤ t
      → lookup t m ≡ none
      → let added = handle_registration life answered (to_register t h) m in
        let removed = handle_registration life answered (to_deregister t) added.1 in
        (added.0 ≡ ok tt)
        × (lookup t added.1 ≡ some h)
        × (removed.0 ≡ ok tt)
        × (lookup u removed.1 ≡ lookup u m)
  register-deregister life t h m u started final free =
      let n = (register_handler (to_register t h) m).1 in
      let here : (t == t) ≡ true = ground arith in
      let there : lookup t n ≡ some h =
        rw (register_handler-lookup (to_register t h) m t, here, free) in
      rw
        (
          handle_registration-runs life (to_register t h) m started final,
          handle_registration-runs life (to_deregister t) n started final,
        )
        (
          rw (register_handler-answer (to_register t h) m, free),
          there,
          rw (register_handler-answer (to_deregister t) n, there),
          elim (Bool-cases (t == u)) [
            | inl same ↦
                rw
                  (register_handler-lookup (to_deregister t) n u, same, ← (==_iff t u).0 same, free)
            | inr other ↦ rw (
              register_handler-lookup (to_deregister t) n u,
              register_handler-lookup (to_register t h) m u,
              other,
            )
          ],
        )
