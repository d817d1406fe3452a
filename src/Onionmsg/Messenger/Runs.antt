-- ===== src/Onionmsg/Messenger/Runs.antt =====
-- Runs of the messenger's event loop and of its clients' requests.
use boltnd.Prelude.{ℕ, suc, ◌≡◌, none, some, List, [], ◌∷◌, Bytes}
use boltnd.Prelude.Errors.{ok, err, foreign}
use boltnd.Prelude.Exec.{Exec}
use boltnd.Onionmsg.Handlers.{Handler, Handlers}
use boltnd.Onionmsg.Messenger.{Event, requested, message, quit, run_loop}
use boltnd.Onionmsg.Messenger.Loop.{served, ending, loop_state, run_loop-serves}

abbrev count : Handler ℕ
count reply encrypted value n = (ok tt, suc n)

-- A processing that counts and always fails.
abbrev process : Handlers ℕ → Bytes → Exec ℕ (Unit {0})
process m bytes n = (err (foreign 1), suc n)

abbrev events : List (Event ℕ)
events =
    message 513 []
    ∷ requested (record { tlv_type = 101; handler = some count })
    ∷ message 513 []
    ∷ quit
    ∷ []

run_loop-serves_example :
    (w : ℕ) × (run_loop process events (loop_state none [] 0)
      ≡ loop_state (ending events) (served events []) w)
run_loop-serves_example = run_loop-serves process (λ m bytes n. tt) events [] 0
