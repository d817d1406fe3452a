-- ===== src/Onionmsg/Threads/Runs.antt =====
-- Runs of the messenger's goroutines.
use boltnd.Prelude.{ℕ, zero, suc, ◌≡◌, refl, [], ◌∷◌, Bytes}
use boltnd.Prelude.Errors.{ok, err, foreign}
use boltnd.Prelude.Exec.{Exec}
use boltnd.Lnwire.Payload.{validate_final_payload}
use boltnd.Onionmsg.Handlers.{Handler, Handlers, Registration}
use boltnd.Onionmsg.Messenger.Loop.{to_register, to_deregister}
use boltnd.Onionmsg.Threads.{
  waiting, exited, registering, offering, awaiting, System, update, new_system, move, answer,
  checks, called, offered, registered, subscribed, Reached, begun, later, Steps, stay, go,
}
use boltnd.Onionmsg.Threads.Linear.{IsSerial, Reached-IsSerial}
use boltnd.Onionmsg.Threads.Orderly.{Orderly, Reached-Orderly}
use boltnd.Onionmsg.Threads.Calls.{Hangs, Steps-Hangs}

abbrev count : Handler ℕ
count reply encrypted value n = (ok tt, suc n)

abbrev process : Handlers ℕ → Bytes → Exec ℕ (Unit {0})
process m bytes n = (err (foreign 1), suc n)

-- The first call registers a handler, the others want to remove it.
abbrev requests : ℕ → Registration ℕ
requests zero = to_register 101 count
requests (suc i) = to_deregister 101

-- A closure that comes back at once.
abbrev IsPrompt : System ℕ → Type 0
IsPrompt s = Unit

abbrev idle : System ℕ
idle = record (new_system 0) { worker = waiting }

abbrev offered_first : System ℕ
offered_first = move 0 offering idle

abbrev taken_first : System ℕ
taken_first = record (move 0 awaiting offered_first) { worker = registering 0 }

abbrev answered_first : System ℕ
answered_first = answer process requests 0 taken_first

good_first : checks (requests 0) ≡ ok tt
unfolding validate_final_payload
good_first = refl

good_second : checks (requests 1) ≡ ok tt
unfolding validate_final_payload
good_second = refl

idle-Reached : Reached process requests IsPrompt 0 [] idle
idle-Reached = later [] [] _ _ begun (subscribed _ refl)

offered-Reached : Reached process requests IsPrompt 0 [] offered_first
offered-Reached = later [] [] _ _ idle-Reached (called 0 _ refl good_first)

taken-Reached : Reached process requests IsPrompt 0 [] taken_first
unfolding update
taken-Reached = later [] [] _ _ offered-Reached (offered 0 _ refl refl)

answered-Reached : Reached process requests IsPrompt 0 (0 ∷ []) answered_first
answered-Reached = later [] (0 ∷ []) _ _ taken-Reached (registered 0 _ refl)

Reached-IsSerial_example : IsSerial requests (0 ∷ []) answered_first
Reached-IsSerial_example =
    Reached-IsSerial requests process IsPrompt 0 (0 ∷ []) answered_first answered-Reached

Reached-Orderly_example : Orderly process requests IsPrompt answered_first
Reached-Orderly_example =
    Reached-Orderly process requests IsPrompt 0 (0 ∷ []) answered_first answered-Reached

-- The loop is gone; the first call hangs, and the second comes to the same select.
abbrev gone : System ℕ
gone = record offered_first { worker = exited }

first-Hangs : Hangs process requests IsPrompt 0 gone
unfolding update
first-Hangs = (refl, refl)

second_called : Steps process requests IsPrompt gone (move 1 offering gone)
unfolding update
second_called = go [] gone _ _ (called 1 gone refl good_second) (stay _)

Steps-Hangs_example : Hangs process requests IsPrompt 0 (move 1 offering gone)
Steps-Hangs_example =
    Steps-Hangs process requests IsPrompt 0 gone (move 1 offering gone) first-Hangs second_called
      refl
