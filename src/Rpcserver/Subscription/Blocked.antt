-- ===== src/Rpcserver/Subscription/Blocked.antt =====
-- When a subscription and the event loop wait for each other (rpcserver/impl_subscribe_onion_payload.go).
use boltnd.Prelude.{◌≡◌, ◌⊎◌, inl, inr, refl, Bool, true, false, Option, none, some, List, ◌∷◌}
use boltnd.Prelude.Errors.{Result, ok}
use boltnd.Rpcserver.Subscription.{Response}
use boltnd.Rpcserver.Subscription.Joint.{
  handing, Caller, serving, sending, deregistering, Joint, Actor, program, Step, arrives, handed,
  dropped, takes, sent, cut_off, client_done, server_done, deferring, deregistered, abandoned,
  returned, quits, lnd_ends, cancels, server_stops, messenger_stops,
}

-- An end that is not a success.
abbrev pub IsFailure : Result (Unit {0}) → Type 0
IsFailure (ok _) = ⊥
IsFailure _ = Unit

-- The last Send failed, and its answer is the end of the stream's loop.
abbrev pub IsFailed : Option (Result (Unit {0})) → Result (Unit {0}) → Type 0
IsFailed end answer = (end ≡ some answer) × (IsFailure answer)

-- The loop of the subscription runs, or it was told to end, or a send failed.
abbrev pub IsCaused : Option (Result (Unit {0})) → Result (Unit {0}) → Bool → Bool → Type 0
IsCaused none answer context server = Unit
IsCaused (some r) answer context server =
    (context ≡ true) ⊎ ((server ≡ true) ⊎ (IsFailed (some r) answer))

-- The goroutine is past its loop only when that has its result, and it is in Send only before.
abbrev pub HasEnded : Caller → Option (Result (Unit {0})) → Type 0
HasEnded serving end = Unit
HasEnded (sending m) end = end ≡ none
HasEnded _ none = ⊥
HasEnded _ (some r) = Unit

pub record Sound (j : Joint) : Type 0 where
  pub caused : IsCaused j.stream.end j.send_answer j.context_done j.server_quit
  pub over : HasEnded j.caller j.stream.end

-- The event loop hands over a message that has no room, the subscription waits for the event loop to take its
-- request, and neither the client nor the server has gone.
pub record Blocked (j : Joint) : Type 0 where
  pub hands : (m : Response) × (j.loop ≡ handing m)
  pub full : (m : Response) × (ms : List Response) × (j.stream.incoming ≡ m ∷ ms)
  pub waits : j.caller ≡ deregistering
  pub connected : j.context_done ≡ false
  pub runs : j.server_quit ≡ false
  pub quiet : j.messenger_quit ≡ false

clash : {b : Bool} → b ≡ true → b ≡ false → ⊥
clash t f = cc

pub Blocked-stuck : (j k : Joint) → Blocked j → Step program j k → ⊥
Blocked-stuck j k b (handed m j' at room) = let (x, xs, e) = b.full in cc
Blocked-stuck j k b (dropped m j' at (inl done)) = clash done b.connected
Blocked-stuck j k b (dropped m j' at (inr done)) = clash done b.runs
Blocked-stuck j k b (takes m rest j' at running waits) = let e = b.waits in cc
Blocked-stuck j k b (cut_off e m j' at done) = clash done b.connected
Blocked-stuck j k b (client_done j' at running done) = clash done b.connected
Blocked-stuck j k b (server_done j' at running done) = clash done b.runs
Blocked-stuck j k b (deferring r j' at done) = let e = b.waits in cc
Blocked-stuck j k b (deregistered j' at free) = let (x, e) = b.hands in cc
Blocked-stuck j k b (abandoned j' at done) = clash done b.quiet
Blocked-stuck j k b (returned j' at before) = let e = b.waits in cc
Blocked-stuck j k b (quits j' at done) = clash done b.quiet

-- Nothing but the client's or the server's end leads out of it.
pub Blocked-stays :
    (a : Actor) (j k : Joint)
    → Blocked j
    → Step a j k
    → (k.context_done ≡ true) ⊎ (k.server_quit ≡ true)
Blocked-stays a j k b (arrives m j' at on) = let (x, e) = b.hands in absurd (cc)
Blocked-stays a j k b (sent r m j' at) = let e = b.waits in absurd (cc)
Blocked-stays a j k b (lnd_ends j' at) = let (x, e) = b.hands in absurd (cc)
Blocked-stays a j k b (cancels j') = inl refl
Blocked-stays a j k b (server_stops j') = inr refl
Blocked-stays a j k b (messenger_stops j' first) = inr first
Blocked-stays a j k b (handed m j' at room) = absurd (Blocked-stuck j k b (handed m j at room))
Blocked-stays a j k b (dropped m j' at gone) = absurd (Blocked-stuck j k b (dropped m j at gone))
Blocked-stays a j k b (takes m rest j' at running waits) =
    absurd (Blocked-stuck j k b (takes m rest j at running waits))
Blocked-stays a j k b (cut_off e m j' at done) =
    absurd (Blocked-stuck j k b (cut_off e m j at done))
Blocked-stays a j k b (client_done j' at running done) =
    absurd (Blocked-stuck j k b (client_done j at running done))
Blocked-stays a j k b (server_done j' at running done) =
    absurd (Blocked-stuck j k b (server_done j at running done))
Blocked-stays a j k b (deferring r j' at done) =
    absurd (Blocked-stuck j k b (deferring r j at done))
Blocked-stays a j k b (deregistered j' at free) =
    absurd (Blocked-stuck j k b (deregistered j at free))
Blocked-stays a j k b (abandoned j' at done) = absurd (Blocked-stuck j k b (abandoned j at done))
Blocked-stays a j k b (returned j' at before) = absurd (Blocked-stuck j k b (returned j at before))
Blocked-stays a j k b (quits j' at done) = absurd (Blocked-stuck j k b (quits j at done))
