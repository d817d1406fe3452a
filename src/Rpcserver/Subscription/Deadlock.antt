-- ===== src/Rpcserver/Subscription/Deadlock.antt =====
-- The deadlock of a subscription with the event loop (rpcserver/impl_subscribe_onion_payload.go).
use boltnd.Prelude.{
  ◌≡◌, ◌⊎◌, inl, inr, refl, Bool, true, false, Option, none, some, List, [], ◌∷◌, Bool-cases,
}
use boltnd.Prelude.Errors.{Error, Result, err}
use boltnd.Rpcserver.Subscription.{Response, serve}
use boltnd.Rpcserver.Subscription.Joint.{
  Loop, at_select, handing, ended, Caller, serving, sending, deregistering, finished, Joint,
  subscribed, program, outside, Step, arrives, handed, dropped, takes, sent, cut_off, client_done,
  server_done, deferring, deregistered, abandoned, returned, Reached, begun, later,
}
use boltnd.Rpcserver.Subscription.Blocked.{IsFailed, IsCaused, HasEnded, Sound, Blocked}
use boltnd.Rpcserver.Subscription.Progress.{Reached-Sound}

-- The event loop waits at its select or has returned.
abbrev pub IsQuiet : Loop → Type 0
IsQuiet (handing m) = ⊥
IsQuiet _ = Unit

-- The subscription waits for its next message, or it is over.
abbrev pub IsAtRest : Joint → Type 0
IsAtRest j =
    ((j.caller ≡ serving)
      × (IsQuiet j.loop)
      × (j.stream.incoming ≡ [])
      × (j.context_done ≡ false)
      × (j.server_quit ≡ false))
    ⊎ ((j.caller ≡ finished) × (j.context_done ≡ true))

-- Send waits for the client, which is there.
abbrev pub IsSending : Joint → Type 0
IsSending j = ((m : Response) × (j.caller ≡ sending m)) × (j.context_done ≡ false)

-- The event loop has returned, and the request to deregister waits for the messenger's Stop.
abbrev pub IsStranded : Joint → Type 0
IsStranded j = (j.caller ≡ deregistering) × (j.loop ≡ ended) × (j.messenger_quit ≡ false)

abbrev pub CanGoOn : Joint → Type 0
CanGoOn j =
    ((k : Joint) × (Step program j k))
    ⊎ ((IsAtRest j)
        ⊎ ((IsSending j)
            ⊎ ((IsStranded j) ⊎ ((Blocked j) × (IsFailed j.stream.end j.send_answer)))))

clash : {b : Bool} → b ≡ true → b ≡ false → ⊥
clash t f = cc

-- The handler's select, with room in the channel.
handing-CanGoOn :
    (m : Response) (j : Joint) → j.loop ≡ handing m → j.stream.incoming ≡ [] → CanGoOn j
handing-CanGoOn m j at room = inl (_, handed m j at room)

idle-CanGoOn :
    (j : Joint)
    → j.caller ≡ serving
    → j.stream.incoming ≡ []
    → j.context_done ≡ false
    → j.server_quit ≡ false
    → CanGoOn j
idle-CanGoOn j at empty connected runs = by_loop j.loop refl
  where
    by_loop : (l : Loop) → j.loop ≡ l → CanGoOn j
    by_loop at_select e = inr (inl (inl (at, rw e tt, empty, connected, runs)))
    by_loop (handing m) e = handing-CanGoOn m j e empty
    by_loop ended e = inr (inl (inl (at, rw e tt, empty, connected, runs)))

serving-CanGoOn : (j : Joint) → j.caller ≡ serving → CanGoOn j
serving-CanGoOn j at = by_end j.stream.end j.stream.incoming refl refl
  where
    by_end :
        (o : Option (Result (Unit {0}))) (ms : List Response)
        → j.stream.end ≡ o
        → j.stream.incoming ≡ ms
        → CanGoOn j
    by_end (some r) ms e f = inl (_, deferring r j at e)
    by_end none (m ∷ ms) e f = inl (_, takes m ms j at e f)
    by_end none [] e f = elim (Bool-cases j.context_done) [
      | inl done ↦ inl (_, client_done j at e done)
      | inr connected ↦ elim (Bool-cases j.server_quit) [
        | inl done ↦ inl (_, server_done j at e done)
        | inr runs ↦ idle-CanGoOn j at f connected runs
      ]
    ]

sending-CanGoOn : (m : Response) (e : Error) (j : Joint) → j.caller ≡ sending m → CanGoOn j
sending-CanGoOn m e j at = elim (Bool-cases j.context_done) [
  | inl done ↦ inl (_, cut_off e m j at done)
  | inr connected ↦ inr (inr (inl ((m, at), connected)))
]

-- The end of a subscription that nobody asked for.
failed :
    (c : Caller) (end : Option (Result (Unit {0}))) (answer : Result (Unit {0}))
    (context server : Bool)
    → c ≡ deregistering
    → HasEnded c end
    → IsCaused end answer context server
    → context ≡ false
    → server ≡ false
    → IsFailed end answer
failed c none answer context server at over caused connected runs = absurd (rw at at over)
failed c (some r) answer context server at over (inl done) connected runs =
    absurd (clash done connected)
failed c (some r) answer context server at over (inr (inl done)) connected runs =
    absurd (clash done runs)
failed c (some r) answer context server at over (inr (inr h)) connected runs = h

full-CanGoOn :
    (m x : Response) (xs : List Response) (j : Joint)
    → Sound j
    → j.caller ≡ deregistering
    → j.messenger_quit ≡ false
    → j.loop ≡ handing m
    → j.stream.incoming ≡ x ∷ xs
    → CanGoOn j
full-CanGoOn m x xs j h at quiet e f = elim (Bool-cases j.context_done) [
  | inl done ↦ inl (_, dropped m j e (inl done))
  | inr connected ↦ elim (Bool-cases j.server_quit) [
    | inl done ↦ inl (_, dropped m j e (inr done))
    | inr runs ↦ inr (
        inr (
          inr (
            inr (
              record {
                hands = (m, e);
                full = (x, xs, f);
                waits = at;
                connected = connected;
                runs = runs;
                quiet = quiet;
              },
              failed j.caller j.stream.end j.send_answer j.context_done j.server_quit at h.over
                  h.caused connected runs,
            ))))
  ]
]

deregistering-CanGoOn : (j : Joint) → Sound j → j.caller ≡ deregistering → CanGoOn j
deregistering-CanGoOn j h at = elim (Bool-cases j.messenger_quit) [
  | inl quit ↦ inl (_, abandoned j at quit)
  | inr quiet ↦ by_loop quiet j.loop j.stream.incoming refl refl
]
  where
    by_loop :
        j.messenger_quit ≡ false
        → (l : Loop) (ms : List Response) → j.loop ≡ l
        → j.stream.incoming ≡ ms
        → CanGoOn j
    by_loop quiet at_select ms e f = inl (_, deregistered j at e)
    by_loop quiet ended ms e f = inr (inr (inr (inl (at, e, quiet))))
    by_loop quiet (handing m) [] e f = handing-CanGoOn m j e f
    by_loop quiet (handing m) (x ∷ xs) e f = full-CanGoOn m x xs j h at quiet e f

finished-CanGoOn : (j : Joint) → j.caller ≡ finished → CanGoOn j
finished-CanGoOn j at = elim (Bool-cases j.context_done) [
  | inl done ↦ inr (inl (inr (at, done)))
  | inr connected ↦ inl (_, returned j at connected)
]

-- However the scheduler, the peers, lnd, the client and the server's Stop interleave, one of these holds: the
-- program can take a step; the subscription waits for a message, with neither the client nor the server gone,
-- or the call is over; Send waits for a client that is still there; the event loop has returned and the
-- deferred DeregisterHandler waits for the messenger's Stop; or the event loop and the subscription wait for
-- each other, and this only when the last Send failed and its error ended the subscription.
pub Reached-CanGoOn : (j : Joint) → Reached j → CanGoOn j
Reached-CanGoOn j reached = by_caller j.caller refl
  where
    by_caller : (c : Caller) → j.caller ≡ c → CanGoOn j
    by_caller serving at = serving-CanGoOn j at
    by_caller (sending m) at = sending-CanGoOn m Error.no_path j at
    by_caller deregistering at = deregistering-CanGoOn j (Reached-Sound j reached) at
    by_caller finished at = finished-CanGoOn j at

-- The loops wait for each other with a full channel.
abbrev blocked_with : Response → Response → Error → Joint
blocked_with m₂ m₃ e = record {
  loop = handing m₃;
  caller = deregistering;
  stream = record { incoming = m₂ ∷ []; sent = []; end = some (err e) };
  send_answer = err e;
  registered = true;
  context_done = false;
  server_quit = false;
  messenger_quit = false;
}

-- The subscription takes a message and Send fails.
later-failed :
    (m : Response) (rest : List Response) (e : Error) (j : Joint)
    → Reached j
    → j.caller ≡ serving
    → j.stream.end ≡ none
    → j.stream.incoming ≡ m ∷ rest
    → Reached (record j {
      caller = serving;
      stream = serve (err e) m rest (record (j.stream) { incoming = rest });
      send_answer = err e;
    })
later-failed m rest e j reached at running waits =
    later outside _ _ (later program j _ reached (takes m rest j at running waits))
      (sent (err e) m _ refl)

-- A message arrives and the handler puts it into the empty channel.
later-handed :
    (m : Response) (j : Joint)
    → Reached j
    → j.loop ≡ at_select
    → j.registered ≡ true
    → j.stream.incoming ≡ []
    → Reached (record j { loop = at_select; stream = record (j.stream) { incoming = m ∷ [] } })
later-handed m j reached at on room =
    later program _ _ (later outside j _ reached (arrives m j at on)) (handed m _ refl room)

-- When Send fails for a message, whatever the error, the loops can come to wait for each other, with the client's
-- context still open and the server not stopped: two more messages of the subscription's type that arrive
-- before the deferred DeregisterHandler are enough. The state that the theorem gives is reached.
pub failed_send-Blocked :
    (m₁ m₂ m₃ : Response) (e : Error)
    → (j : Joint) × (Reached j) × (Blocked j) × (j.send_answer ≡ err e)
unfolding serve
failed_send-Blocked m₁ m₂ m₃ e = (
  blocked_with m₂ m₃ e,
  later outside _ _
      (later-handed m₂ _
        (later program _ _
          (later-failed m₁ [] e _ (later-handed m₁ subscribed begun refl refl refl) refl refl refl)
          (deferring (err e) _ refl refl))
        refl refl refl)
      (arrives m₃ _ refl refl),
  record {
    hands = (m₃, refl);
    full = (m₂, [], refl);
    waits = refl;
    connected = refl;
    runs = refl;
    quiet = refl;
  },
  refl,
)
