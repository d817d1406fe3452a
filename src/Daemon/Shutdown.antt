-- ===== src/Daemon/Shutdown.antt =====
-- boltnd.go, requestShutdown, with the messenger of onionmsg/messenger.go that calls it.
use boltnd.Prelude.{◌≡◌, inl, inr, Bool, true, false, Option, some, List, [], ◌∷◌, ℕ, Bytes}
use boltnd.Prelude.Errors.{Error}
use boltnd.Prelude.Exec.{Exec}
use boltnd.Onionmsg.Handlers.{Handlers, Registration}
use boltnd.Onionmsg.Threads.{System, exited, Reached}
use boltnd.Onionmsg.Threads.Orderly.{IsOrderly, Reached-Orderly}
use boltnd.Daemon.Config.{request_shutdown_of}

-- The calls of requestShutdown that the messenger made, in their order.
unfoldable pub shut_down : {W : Type 0} → Option (W → W) → List Error → W → W
unfolding request_shutdown_of
shut_down f [] w = w
shut_down f (e ∷ es) w = shut_down f es (request_shutdown_of f e w)

still_open : {b : Bool} → b ≡ true → b ≡ false → ⊥
still_open t f = cc

exited-once :
    {W : Type 0} (f : W → W) (w : W) (closed router : Bool) (shutdown : List Error)
    → IsOrderly exited closed router shutdown
    → closed ≡ false
    → shut_down (some f) shutdown w ≡ f w
unfolding shut_down request_shutdown_of
exited-once f w closed router shutdown (_, inl (_, at_stop)) still =
    absurd (still_open at_stop still)
exited-once f w closed router shutdown (_, inr (e, one, _)) still = rw one

-- When the messenger's goroutine has exited and nobody called Stop, the closure that the configuration holds has
-- been called, and once.
pub Reached-shut_down :
    {S W : Type 0} (process : Handlers S → Bytes → Exec S (Unit {0}))
    (requests : ℕ → Registration S) (closure : System S → Type 0) (world : S) (taken : List ℕ)
    (s : System S) (f : W → W) (w : W)
    → Reached process requests closure world taken s
    → s.worker ≡ exited
    → s.quit_closed ≡ false
    → shut_down (some f) s.shutdown w ≡ f w
Reached-shut_down process requests closure world taken s f w reached gone still =
    exited-once f w s.quit_closed s.router_stopped s.shutdown
      (rw gone at (Reached-Orderly process requests closure world taken s reached)) still
