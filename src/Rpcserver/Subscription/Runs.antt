-- ===== src/Rpcserver/Subscription/Runs.antt =====
-- Runs of a subscription whose stream fails.
use boltnd.Prelude.{ℕ, ◌≡◌, refl, none, [], ◌∷◌}
use boltnd.Prelude.Errors.{err, foreign}
use boltnd.Rpcserver.Subscription.{Response}
use boltnd.Rpcserver.Subscription.Joint.{
  handing, Joint, subscribed, outside, arrives, Reached, begun, later,
}
use boltnd.Rpcserver.Subscription.Blocked.{Blocked}
use boltnd.Rpcserver.Subscription.Deadlock.{CanGoOn, Reached-CanGoOn, failed_send-Blocked}

abbrev response : ℕ → Response
response n = record { payload = n ∷ []; reply_path = none }

abbrev first_arrived : Joint
first_arrived = record subscribed { loop = handing (response 1) }

first-Reached : Reached first_arrived
first-Reached = later outside subscribed _ begun (arrives (response 1) subscribed refl refl)

Reached-CanGoOn_example : CanGoOn first_arrived
Reached-CanGoOn_example = Reached-CanGoOn first_arrived first-Reached

failed_send-Blocked_example :
    (j : Joint) × (Reached j) × (Blocked j) × (j.send_answer ≡ err (foreign 7))
failed_send-Blocked_example = failed_send-Blocked (response 1) (response 2) (response 3) (foreign 7)
