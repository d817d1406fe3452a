-- ===== src/Onionmsg/Messenger.antt =====
-- onionmsg/messenger.go: the life of the messenger, the requests of its clients and its event loop.
pub mod Loop
mod Runs
use boltnd.Prelude.{
  ℕ, zero, suc, Bool, true, false, not, Option, none, some, List, [], ◌∷◌, ◌==◌, Bytes,
  if◌then◌else◌,
}
use boltnd.Prelude.Errors.{
  Error, Result, ok, err, panic, stuck, wrapped, text, not_started, shutting_down, lnd_shutdown,
  wrap, guard, ◌>>=◌, ◌>>◌,
}
use boltnd.Prelude.Exec.{Exec}
use boltnd.Lnwire.Payload.{validate_final_payload, onion_message_type}
use boltnd.Onionmsg.Handlers.{Handler, Handlers, Registration, register_handler}

-- The flags that Start and Stop swap atomically.
pub record Life : Type 0 where
  pub started : Bool
  pub stopped : Bool

-- The router's Start is a parameter: its answer. The event loop starts only when it succeeds.
unfoldable pub start : Result (Unit {0}) → Life → Result (Unit {0}) × Life
start router life =
    if life.started
    then (err text, life)
    else (wrap router, record { started = true; stopped = life.stopped })

-- With the loop's end that the method waits for.
unfoldable pub stop : Life → Result (Unit {0}) × Life
stop life =
    if life.stopped
    then (err text, life)
    else (ok tt, record { started = life.started; stopped = true })

-- What the two selects of handleRegistration find ready: the quit channel before the loop takes the
-- request, the quit channel before the loop's answer is read, or the answer.
pub data Race : Type 0 where
  quit_before quit_after answered : Race

unfoldable pub await_answer : Race → Result (Unit {0}) → Result (Unit {0})
await_answer quit_before answer = err (wrapped shutting_down)
await_answer quit_after answer = err (wrapped shutting_down)
await_answer answered answer = wrap answer

-- The loop takes the request unless it quits before.
unfoldable pub taken : {S : Type 0} → Race → Registration S → Handlers S → Handlers S
unfolding register_handler
taken quit_before request m = m
taken quit_after request m = (register_handler request m).1
taken answered request m = (register_handler request m).1

unfoldable pub submit :
    {S : Type 0}
    → Race
    → Registration S
    → Handlers S
    → Result (Unit {0})
    → Result (Unit {0}) × Handlers S
unfolding await_answer taken register_handler
submit race request m (ok _) =
    (await_answer race (register_handler request m).0, taken race request m)
submit race request m (err e) = (err e, m)
submit race request m panic = (panic, m)
submit race request m stuck = (stuck, m)

-- RegisterHandler and DeregisterHandler: the checks of the client's goroutine, then the selects.
unfoldable pub handle_registration :
    {S : Type 0} → Life → Race → Registration S → Handlers S → Result (Unit {0}) × Handlers S
unfolding submit validate_final_payload
handle_registration life race request m =
    submit race request m
      (wrap (validate_final_payload request.tlv_type) >> guard life.started (wrapped not_started))

-- What the select of manageOnionMessages finds ready. A message is its type and its data.
pub data Event (S : Type 0) : Type 0 where
  requested : Registration S → Event S
  message : ℕ → Bytes → Event S
  messages_closed errors_closed quit : Event S
  stream_error : Error → Event S

-- The loop's state: the handlers and the world. Its result is none while it waits for an event.
pub record LoopState (S : Type 0) : Type 0 where
  pub end : Option (Result (Unit {0}))
  pub handlers : Handlers S
  pub world : S

module _ {S : Type 0} (process : Handlers S → Bytes → Exec S (Unit {0})) where
  -- What the loop does after handleOnionMessage: every error is only logged.
  unfoldable pub after_message : Result (Unit {0}) → Option (Result (Unit {0}))
  after_message (ok _) = none
  after_message (err _) = none
  after_message panic = some panic
  after_message stuck = some stuck

  unfoldable pub on_message : ℕ → Bytes → Handlers S → S → LoopState S
  unfolding after_message
  on_message msg_type bytes m s =
      if msg_type == onion_message_type
      then record {
        end = after_message (process m bytes s).0;
        handlers = m;
        world = (process m bytes s).1;
      }
      else record { end = none; handlers = m; world = s }

  unfoldable pub on_event : Event S → Handlers S → S → LoopState S
  unfolding on_message register_handler
  on_event (requested request) m s = record {
    end = none;
    handlers = (register_handler request m).1;
    world = s;
  }
  on_event (message msg_type bytes) m s = on_message msg_type bytes m s
  on_event messages_closed m s = record {
    end = some (err (wrapped lnd_shutdown));
    handlers = m;
    world = s;
  }
  on_event errors_closed m s = record {
    end = some (err (wrapped lnd_shutdown));
    handlers = m;
    world = s;
  }
  on_event quit m s = record { end = some (err shutting_down); handlers = m; world = s }
  on_event (stream_error e) m s = record { end = some (err (wrapped e)); handlers = m; world = s }

  -- The loop over the events that the select meets, in their order.
  unfoldable pub run_loop : List (Event S) → LoopState S → LoopState S
  unfolding on_event
  run_loop [] st = st
  run_loop (e ∷ es) st = elim st.end [
    | none ↦ run_loop es (on_event e st.handlers st.world)
    | some r ↦ st
  ]

  -- manageOnionMessages, with lnd's answer to the subscription.
  unfoldable pub manage_onion_messages :
      Result (Unit {0}) → List (Event S) → Handlers S → S → LoopState S
  unfolding run_loop
  manage_onion_messages (ok _) events m s =
      run_loop events (record { end = none; handlers = m; world = s })
  manage_onion_messages (err e) events m s = record { end = some (err e); handlers = m; world = s }
  manage_onion_messages panic events m s = record { end = some panic; handlers = m; world = s }
  manage_onion_messages stuck events m s = record { end = some stuck; handlers = m; world = s }
