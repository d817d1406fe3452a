-- ===== src/Rpcserver/Subscription/Joint.antt =====
-- rpcserver/impl_subscribe_onion_payload.go with the event loop of onionmsg/messenger.go: one subscription whose
-- handler is registered, and the loop that runs the handler and takes the request to deregister it.
use boltnd.Prelude.{◌≡◌, ◌⊎◌, Bool, true, false, none, some, List, [], ◌∷◌}
use boltnd.Prelude.Errors.{Error, Result, ok, err, status, canceled}
use boltnd.Rpcserver.Subscription.{Response, Stream, new_stream, serve, shutting_down}

-- The event loop: at its select, in the select of the subscription's handler with a message, or returned.
pub data Loop : Type 0 where
  at_select : Loop
  handing : Response → Loop
  ended : Loop

-- The goroutine of the client's call: at the select of its loop, in Send with a message, in the deferred
-- DeregisterHandler, or returned.
pub data Caller : Type 0 where
  serving deregistering finished : Caller
  sending : Response → Caller

-- With what the last Send answered, the subscription's part of the map, the end of the stream's context, and the
-- channels `quit` of the server and of the messenger.
pub record Joint : Type 0 where
  pub loop : Loop
  pub caller : Caller
  pub stream : Stream
  pub send_answer : Result (Unit {0})
  pub registered : Bool
  pub context_done : Bool
  pub server_quit : Bool
  pub messenger_quit : Bool

abbrev pub subscribed : Joint
subscribed = record {
  loop = at_select;
  caller = serving;
  stream = new_stream;
  send_answer = ok tt;
  registered = true;
  context_done = false;
  server_quit = false;
  messenger_quit = false;
}

-- Who takes a step: a goroutine of the program, or a peer, lnd, the client or whoever stops the daemon.
pub data Actor : Type 0 where
  program outside : Actor

pub data Step : Actor → Joint → Joint → Type 0 where
  -- A peer's message with a payload of the subscription's type.
  arrives :
      (m : Response) (j : Joint)
      → j.loop ≡ at_select
      → j.registered ≡ true
      → Step outside j (record j { loop = handing m })
  -- The handler's select.
  handed :
      (m : Response) (j : Joint)
      → j.loop ≡ handing m
      → j.stream.incoming ≡ []
      → Step program j
          (record j { loop = at_select; stream = record (j.stream) { incoming = m ∷ [] } })
  dropped :
      (m : Response) (j : Joint)
      → j.loop ≡ handing m
      → (j.context_done ≡ true) ⊎ (j.server_quit ≡ true)
      → Step program j (record j { loop = at_select })
  -- The select of the subscription's loop.
  takes :
      (m : Response) (rest : List Response) (j : Joint)
      → j.caller ≡ serving
      → j.stream.end ≡ none
      → j.stream.incoming ≡ m ∷ rest
      → Step program j
          (record j { caller = sending m; stream = record (j.stream) { incoming = rest } })
  -- Send waits for room on the stream, which the client makes, and fails at last when the context ends. What it
  -- answers is for grpc and the client to say.
  sent :
      (answer : Result (Unit {0})) (m : Response) (j : Joint)
      → j.caller ≡ sending m
      → Step outside j (record j {
        caller = serving;
        stream = serve answer m j.stream.incoming j.stream;
        send_answer = answer;
      })
  cut_off :
      (e : Error) (m : Response) (j : Joint)
      → j.caller ≡ sending m
      → j.context_done ≡ true
      → Step program j (record j {
        caller = serving;
        stream = serve (err e) m j.stream.incoming j.stream;
        send_answer = err e;
      })
  client_done :
      (j : Joint)
      → j.caller ≡ serving
      → j.stream.end ≡ none
      → j.context_done ≡ true
      → Step program j
          (record j { stream = record (j.stream) { end = some (err (status canceled)) } })
  server_done :
      (j : Joint)
      → j.caller ≡ serving
      → j.stream.end ≡ none
      → j.server_quit ≡ true
      → Step program j (record j { stream = record (j.stream) { end = some (err shutting_down) } })
  -- The deferred call, once the loop has its result.
  deferring :
      (r : Result (Unit {0})) (j : Joint)
      → j.caller ≡ serving
      → j.stream.end ≡ some r
      → Step program j (record j { caller = deregistering })
  -- The selects of handleRegistration: the event loop takes the request, and answers it at once.
  deregistered :
      (j : Joint)
      → j.caller ≡ deregistering
      → j.loop ≡ at_select
      → Step program j (record j { caller = finished; registered = false })
  abandoned :
      (j : Joint)
      → j.caller ≡ deregistering
      → j.messenger_quit ≡ true
      → Step program j (record j { caller = finished })
  -- The call has returned: grpc ends the context of its stream.
  returned :
      (j : Joint)
      → j.caller ≡ finished
      → j.context_done ≡ false
      → Step program j (record j { context_done = true })
  -- The event loop sees the messenger's `quit`.
  quits :
      (j : Joint)
      → j.loop ≡ at_select
      → j.messenger_quit ≡ true
      → Step program j (record j { loop = ended })
  -- lnd closes a stream or sends an error.
  lnd_ends : (j : Joint) → j.loop ≡ at_select → Step outside j (record j { loop = ended })
  -- The client goes away, and the server's Stop closes its `quit` before it stops the messenger.
  cancels : (j : Joint) → Step outside j (record j { context_done = true })
  server_stops : (j : Joint) → Step outside j (record j { server_quit = true })
  messenger_stops :
      (j : Joint) → j.server_quit ≡ true → Step outside j (record j { messenger_quit = true })

pub data Reached : Joint → Type 0 where
  begun : Reached subscribed
  later : (a : Actor) (j k : Joint) → Reached j → Step a j k → Reached k
