-- ===== src/Onionmsg/Threads/Stopping.antt =====
-- What the goroutines of a messenger can still reach: Stop, the answers of calls, and calls that hang
-- (onionmsg/messenger.go, Stop and handleRegistration).
use boltnd.Prelude.{ℕ, ◌≡◌, true, Bytes}
use boltnd.Prelude.Errors.{Returns}
use boltnd.Prelude.Exec.{Exec}
use boltnd.Onionmsg.Handlers.{Handlers, Registration}
use boltnd.Onionmsg.Threads.{Worker, requesting, ended, System, Steps}

-- The loop did not end by a panic, and it comes to its end.
abbrev IsSound : Worker → Type 0
IsSound (ended r) = Returns r
IsSound _ = Unit

module _ {S : Type 0} (process : Handlers S → Bytes → Exec S (Unit {0}))
    (requests : ℕ → Registration S) (closure : System S → Type 0)
    (returns : (m : Handlers S) (bytes : Bytes) (s : S) → Returns (process m bytes s).0)
    (comes_back : (s : System S) → s.worker ≡ requesting → closure s) where
  -- Stop can return from here.
  abbrev CanStop : System S → Type 0
  CanStop s = (t : System S) × (Steps process requests closure s t) × (t.router_stopped ≡ true)
