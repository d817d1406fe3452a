-- ===== src/Rpcserver/Calls.antt =====
-- rpcserver/server.go and rpcserver/impl_sendonionmessage.go: the gate that every call waits at, and
-- SendOnionMessage. Handing a message to the messenger, which is an argument, changes a world `S`.
use boltnd.Prelude.{
  ◌≡◌, ◌≢◌, ◌⊎◌, ◌∙◌, inl, inr, refl, ap, Bool, true, false, Bool-cases, Bytes, if◌then◌else◌,
}
use boltnd.Prelude.Errors.{
  Error, Result, ok, err, panic, stuck, status, wrapped, no_path, not_found, internal, unavailable,
  invalid_argument, root_cause, Returns,
}
use boltnd.Prelude.Exec.{Exec, lift, ◌>>=◌, ◌>>◌}
use boltnd.Lnwire.Tlv.{PubKey}
use boltnd.Onionmsg.Request.{SendMessageRequest, validate}
use boltnd.Rpcserver.{RpcSendRequest, parse_send_request}
use boltnd.Rpcserver.Parsed.{IsParsing, parse_send_request-validate, parse_send_request-IsParsing}

-- What the select of waitForReady takes: the closed channel of Start, or the end of the context.
pub data Gate : Type 0 where
  ready not_ready : Gate

unfoldable pub wait_for_ready : Gate → Result (Unit {0})
wait_for_ready ready = ok tt
wait_for_ready not_ready = err (status unavailable)

-- errors.Is(err, onionmsg.ErrNoPath)
unfoldable pub is_no_path : Error → Bool
is_no_path (wrapped e) = is_no_path e
is_no_path no_path = true
is_no_path _ = false

-- The switch of SendOnionMessage on the messenger's answer.
unfoldable pub answer_send : Result (Unit {0}) → Result (Unit {0})
unfolding is_no_path
answer_send (ok _) = ok tt
answer_send (err e) = err (status (if is_no_path e then not_found else internal))
answer_send panic = panic
answer_send stuck = stuck

abbrev pub answering : {S : Type 0} → Exec S (Unit {0}) → Exec S (Unit {0})
answering m s = (answer_send (m s).0, (m s).1)

-- The code for the messenger's answer, by what its error comes from.
abbrev pub IsAnswer : Result (Unit {0}) → Result (Unit {0}) → Type 0
IsAnswer (ok _) r = r ≡ ok tt
IsAnswer (err e) r =
    ((root_cause e ≡ no_path) × (r ≡ err (status not_found)))
    ⊎ ((root_cause e ≢ no_path) × (r ≡ err (status internal)))
IsAnswer panic r = r ≡ panic
IsAnswer stuck r = r ≡ stuck

root_cause-is_no_path : (e : Error) → is_no_path e ≡ is_no_path (root_cause e)
unfolding is_no_path
root_cause-is_no_path (wrapped e) = root_cause-is_no_path e
root_cause-is_no_path _ = refl

is_no_path-root_cause : (e : Error) → is_no_path e ≡ true → root_cause e ≡ no_path
unfolding is_no_path
is_no_path-root_cause (wrapped e) h = is_no_path-root_cause e h
is_no_path-root_cause no_path h = refl
is_no_path-root_cause _ h = cc

other_cause : (e : Error) → is_no_path e ≡ false → root_cause e ≢ no_path
other_cause e h same =
    let found : is_no_path e ≡ true =
      root_cause-is_no_path e ∙ ap is_no_path same ∙ unfold is_no_path in refl in
    cc

answer_send-IsAnswer : (r : Result (Unit {0})) → IsAnswer r (answer_send r)
unfolding answer_send
answer_send-IsAnswer (ok _) = refl
answer_send-IsAnswer (err e) = elim (Bool-cases (is_no_path e)) [
  | inl found ↦ inl (is_no_path-root_cause e found, rw found)
  | inr other ↦ inr (other_cause e other, rw other)
]
answer_send-IsAnswer panic = refl
answer_send-IsAnswer stuck = refl

module _ {S : Type 0} (parse : Bytes → Result PubKey)
    (send : SendMessageRequest → Exec S (Unit {0})) (gate : Gate) where
  unfoldable pub send_onion_message : RpcSendRequest → Exec S (Unit {0})
  unfolding wait_for_ready parse_send_request answer_send
  send_onion_message req = do
    lift (wait_for_ready gate)
    onion_req ← lift (parse_send_request parse req)
    answering (send onion_req)

  -- The server is not ready, the request is refused, or it is handed to the messenger: the answer of the call and
  -- the world after it.
  abbrev pub IsUnavailable : S → Result (Unit {0}) × S → Type 0
  IsUnavailable s after = (gate ≡ not_ready) × (after ≡ (err (status unavailable), s))

  abbrev pub IsRefused : RpcSendRequest → S → Result (Unit {0}) × S → Type 0
  IsRefused req s after =
      (gate ≡ ready)
      × (parse_send_request parse req ≡ err (status invalid_argument))
      × (after ≡ (err (status invalid_argument), s))

  abbrev pub IsHanded : RpcSendRequest → S → Result (Unit {0}) × S → Type 0
  IsHanded req s after =
      (gate ≡ ready)
      × ((onion_req : SendMessageRequest) × (parse_send_request parse req ≡ ok onion_req)
          × (validate onion_req ≡ ok tt)
          × (IsAnswer (send onion_req s).0 after.0)
          × (after.1 ≡ (send onion_req s).1))

  -- Where the parser of keys returns, a call of SendOnionMessage ends in one of three ways. The server is not ready:
  -- the code is Unavailable and nothing is sent. It is ready and the request is malformed: the code is
  -- InvalidArgument and nothing is sent. It is ready and the request is parsed, to one that Validate accepts: the
  -- message is handed to the messenger, once and with nothing before or after, and the call succeeds if that
  -- does, answers NotFound for an error that comes from ErrNoPath, and Internal for any other.
  pub send_onion_message-IsHanded :
      (returns : (k : Bytes) → Returns (parse k)) (req : RpcSendRequest) (s : S)
      → (IsUnavailable s (send_onion_message req s))
        ⊎ ((IsRefused req s (send_onion_message req s))
            ⊎ (IsHanded req s (send_onion_message req s)))
  unfolding send_onion_message wait_for_ready
  send_onion_message-IsHanded returns req s = by_gate gate refl
    where
      parsed :
          (r : Result SendMessageRequest)
          → gate ≡ ready
          → parse_send_request parse req ≡ r
          → IsParsing r
          → (IsRefused req s (send_onion_message req s))
            ⊎ (IsHanded req s (send_onion_message req s))
      parsed (ok onion_req) g e h = inr (
        g,
        (
          onion_req,
          e,
          (parse_send_request-validate parse req onion_req e).0,
          rw (g, e) (answer_send-IsAnswer (send onion_req s).0),
          rw (g, e),
        ),
      )
      parsed (err e) g f h = inl (g, f ∙ ap err h, rw (g, f, h))
      parsed panic g e h = absurd h
      parsed stuck g e h = absurd h

      by_gate :
          (g : Gate)
          → gate ≡ g
          → (IsUnavailable s (send_onion_message req s))
            ⊎ ((IsRefused req s (send_onion_message req s))
                ⊎ (IsHanded req s (send_onion_message req s)))
      by_gate not_ready g = inl (g, rw g)
      by_gate ready g = inr (parsed _ g refl (parse_send_request-IsParsing parse returns req))
