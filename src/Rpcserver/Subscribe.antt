-- ===== src/Rpcserver/Subscribe.antt =====
-- rpcserver/impl_subscribe_onion_payload.go: the handler of a subscription, and its registration around
-- the loop. The messenger's map of handlers is the state.
use boltnd.Prelude.{ℕ, ◌≤◌, ◌≡◌, refl, true, none}
use boltnd.Prelude.Errors.{Error, Result, ok, err, panic, stuck, status, unavailable}
use boltnd.Prelude.Exec.{Exec, lift, ◌>>=◌, ◌>>◌}
use boltnd.Rpcserver.{parse_subscribe_request}
use boltnd.Rpcserver.Calls.{Gate, wait_for_ready}
use boltnd.Onionmsg.Handlers.{Handler, Handlers, Registration, lookup}
use boltnd.Onionmsg.Messenger.{Life, answered, handle_registration}
use boltnd.Onionmsg.Messenger.Loop.{to_register, to_deregister, register-deregister}
use boltnd.Rpcserver.Subscription.{shutting_down}

-- What the select of the handler takes: room in the channel, the end of the context, that of the server.
pub data Turn : Type 0 where
  room context_done quitting : Turn

unfoldable pub handler_answer : Error → Turn → Result (Unit {0})
handler_answer context_error room = ok tt
handler_answer context_error context_done = err context_error
handler_answer context_error quitting = err shutting_down

module _ {S : Type 0}
    (messenger : Registration S → Handlers S → Result (Unit {0}) × Handlers S) where
  -- The rest of handleSubscribeOnionPayload, with the result of its loop: the deferred call deregisters the
  -- handler, and its error is only logged.
  unfoldable pub run_subscription :
      Result (Unit {0}) → ℕ → Result (Unit {0}) → Handlers S → Result (Unit {0}) × Handlers S
  run_subscription (ok _) t loop m = (loop, (messenger (to_deregister t) m).1)
  run_subscription (err e) t loop m = (err (status unavailable), m)
  run_subscription panic t loop m = (panic, m)
  run_subscription stuck t loop m = (stuck, m)

  unfoldable pub handle_subscribe :
      ℕ → Handler S → Result (Unit {0}) → Handlers S → Result (Unit {0}) × Handlers S
  unfolding run_subscription
  handle_subscribe t h loop m =
      run_subscription (messenger (to_register t h) m).0 t loop (messenger (to_register t h) m).1

  -- SubscribeOnionPayload
  unfoldable pub subscribe_onion_payload :
      Gate → ℕ → Handler S → Result (Unit {0}) → Exec (Handlers S) (Unit {0})
  unfolding handle_subscribe wait_for_ready parse_subscribe_request
  subscribe_onion_payload gate request h loop = do
    lift (wait_for_ready gate)
    t ← lift (parse_subscribe_request request)
    handle_subscribe t h loop

-- On a messenger that runs, a subscription to a free type of a final hop payload answers as its loop does, and
-- whatever ends the loop, every lookup of a handler is then as it was before.
pub handle_subscribe-lookup :
    {S : Type 0} (life : Life) (t : ℕ) (h : Handler S) (loop : Result (Unit {0})) (m : Handlers S)
    (u : ℕ)
    → life.started ≡ true
    → 64 ≤ t
    → lookup t m ≡ none
    → let after = handle_subscribe (handle_registration life answered) t h loop m in
      (after.0 ≡ loop) × (lookup u after.1 ≡ lookup u m)
unfolding handle_subscribe
handle_subscribe-lookup life t h loop m u started final free =
    let (added, _, _, restored) = register-deregister life t h m u started final free in
    rw added (refl, restored)
