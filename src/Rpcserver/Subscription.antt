-- ===== src/Rpcserver/Subscription.antt =====
-- rpcserver/impl_subscribe_onion_payload.go: a subscription, its handler and its loop, as the steps that
-- the scheduler can choose. The channel between them holds one message.
pub mod Deadlock
pub mod Joint
pub mod Blocked
pub mod Progress
mod Runs
use mathlib.Core.List.{append-nil, append_assoc}
use boltnd.Prelude.{
  ℕ, suc, ◌≤◌, ◌≡◌, ◌⊎◌, inl, inr, refl, Option, none, some, List, [], ◌∷◌, ◌++◌, length, Bytes,
  arith,
}
use boltnd.Prelude.Errors.{Error, Result, ok, err, panic, stuck, status, canceled, aborted}
use boltnd.Lnwire.ReplyPath.{ReplyPath}
use boltnd.Rpcserver.{RpcPath, compose_reply_path}

-- onionPayloadResponse
pub record Response : Type 0 where
  pub payload : Bytes
  pub reply_path : Option ReplyPath

-- offersrpc.SubscribeOnionPayloadResponse
pub record RpcResponse : Type 0 where
  pub value : Bytes
  pub reply_path : Option RpcPath

unfoldable pub compose_response : Response → RpcResponse
unfolding compose_reply_path
compose_response m = record { value = m.payload; reply_path = compose_reply_path m.reply_path }

-- The messages in the channel, those that were sent to the client, and the loop's result: none while it runs.
pub record Stream : Type 0 where
  pub incoming : List Response
  pub sent : List RpcResponse
  pub end : Option (Result (Unit {0}))

abbrev pub new_stream : Stream
new_stream = record { incoming = []; sent = []; end = none }

-- The case of the loop that takes a message, with the answer of `send`.
unfoldable pub serve : Result (Unit {0}) → Response → List Response → Stream → Stream
unfolding compose_response
serve (ok _) m rest s = record {
  incoming = rest;
  sent = s.sent ++ compose_response m ∷ [];
  end = s.end;
}
serve (err e) m rest s = record { incoming = rest; sent = s.sent; end = some (err e) }
serve panic m rest s = record { incoming = rest; sent = s.sent; end = some panic }
serve stuck m rest s = record { incoming = rest; sent = s.sent; end = some stuck }

-- ErrShuttingDown
abbrev pub shutting_down : Error
shutting_down = status aborted

-- One step of the handler or of the loop, and the messages that the handler took with it. A handler's other
-- cases, the end of the context and of the server, leave the stream as it is.
-- Send can answer each time as it likes.
pub data Step : List Response → Stream → Stream → Type 0 where
  handled :
      (m : Response) (s : Stream)
      → s.incoming ≡ []
      → Step (m ∷ []) s (record s { incoming = m ∷ [] })
  refused : (s : Stream) → Step [] s s
  served :
      (answer : Result (Unit {0})) (m : Response) (rest : List Response) (s : Stream)
      → s.end ≡ none
      → s.incoming ≡ m ∷ rest
      → Step [] s (serve answer m rest s)
  client_done :
      (s : Stream) → s.end ≡ none → Step [] s (record s { end = some (err (status canceled)) })
  server_done :
      (s : Stream) → s.end ≡ none → Step [] s (record s { end = some (err shutting_down) })

-- The streams that steps lead to, with all the messages that the handler took, in their order.
pub data Reached : List Response → Stream → Type 0 where
  begun : Reached [] new_stream
  later :
      (taken more : List Response) (s t : Stream)
      → Reached taken s
      → Step more s t
      → Reached (taken ++ more) t

abbrev pub compose_all : List Response → List RpcResponse
compose_all [] = []
compose_all (m ∷ ms) = compose_response m ∷ compose_all ms

-- At most one message waits; what was sent, what was lost and what waits is what the handler took; and
-- nothing was lost, or the loop has ended.
abbrev pub IsFaithful : List Response → Stream → Type 0
IsFaithful taken s =
    (length s.incoming ≤ 1)
    × ((lost : List RpcResponse) × (compose_all taken ≡ s.sent ++ (lost ++ compose_all s.incoming))
        × ((lost ≡ []) ⊎ ((r : Result (Unit {0})) × (s.end ≡ some r))))

compose_all-append :
    (xs ys : List Response) → compose_all (xs ++ ys) ≡ compose_all xs ++ compose_all ys
compose_all-append [] ys = refl
compose_all-append (x ∷ xs) ys = rw (compose_all-append xs ys)

serve-IsFaithful :
    (r : Result (Unit {0})) (m : Response) (rest : List Response) (taken : List Response)
    (s : Stream)
    → length rest ≤ 0
    → compose_all taken ≡ s.sent ++ compose_response m ∷ compose_all rest
    → s.end ≡ none
    → IsFaithful taken (serve r m rest s)
unfolding serve
serve-IsFaithful (ok _) m rest taken s short all runs = (
  omega arith,
  ([], rw (all, append_assoc s.sent (compose_response m ∷ []) (compose_all rest)), inl refl),
)
serve-IsFaithful (err e) m rest taken s short all runs =
    (omega arith, (compose_response m ∷ [], all, inr (err e, refl)))
serve-IsFaithful panic m rest taken s short all runs =
    (omega arith, (compose_response m ∷ [], all, inr (panic, refl)))
serve-IsFaithful stuck m rest taken s short all runs =
    (omega arith, (compose_response m ∷ [], all, inr (stuck, refl)))

le_of_suc : {n : ℕ} → suc n ≤ 1 → n ≤ 0
le_of_suc h = omega arith

while_running :
    (lost : List RpcResponse) (s : Stream)
    → (lost ≡ []) ⊎ ((r : Result (Unit {0})) × (s.end ≡ some r))
    → s.end ≡ none
    → lost ≡ []
while_running lost s (inl e) runs = e
while_running lost s (inr (r, ended)) runs = cc

step-IsFaithful :
    (taken more : List Response) (s t : Stream)
    → IsFaithful taken s
    → Step more s t
    → IsFaithful (taken ++ more) t
step-IsFaithful taken more s t (short, (lost, all, none_lost)) (handled m s' empty) =
    let before : compose_all taken ≡ s.sent ++ lost = rw (empty, append-nil lost) at all in
    (
      omega arith,
      (
        lost,
        rw (
          compose_all-append taken (m ∷ []),
          before,
          append_assoc s.sent lost (compose_response m ∷ []),
        ),
        none_lost,
      ),
    )
step-IsFaithful taken more s t faithful (refused s') = rw (append-nil taken) faithful
step-IsFaithful taken more s t (short, (lost, all, none_lost))
      (served answer m rest s' runs waits) =
    rw (append-nil taken) (
      serve-IsFaithful answer m rest taken s (le_of_suc (rw waits at short))
        (rw (while_running lost s none_lost runs, waits) at all) runs)
step-IsFaithful taken more s t (short, (lost, all, none_lost)) (client_done s' runs) =
    (short, (lost, rw (append-nil taken) all, inr (_, refl)))
step-IsFaithful taken more s t (short, (lost, all, none_lost)) (server_done s' runs) =
    (short, (lost, rw (append-nil taken) all, inr (_, refl)))

-- Whatever the scheduler chooses and Send answers: at most one message waits in the channel, what the client was
-- sent, followed by what is lost and what waits, is what the handler took, in its order, and nothing is lost
-- unless the loop has ended.
pub Reached-IsFaithful : (taken : List Response) (s : Stream) → Reached taken s → IsFaithful taken s
Reached-IsFaithful taken s begun = (omega arith, ([], refl, inl refl))
Reached-IsFaithful taken s (later before more r t reached step) =
    step-IsFaithful before more r s (Reached-IsFaithful before r reached) step
