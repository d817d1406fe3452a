-- ===== src/Rpcserver/Parsed.antt =====
-- rpcserver: what a request that is parsed holds, and what one that is not is answered.
use boltnd.Prelude.{
  ℕ, Bool, true, false, ◌&&◌, ◌||◌, ◌≤◌, ◌<◌, ◌≡◌, ◌↔◌, refl, Option, none, some, List, [], ◌∷◌,
  length, ◌==◌, Bytes, All, arith, ltb, not, Bool-cases, inl, inr,
}
use boltnd.Prelude.Errors.{
  Error, Result, ok, err, panic, stuck, status, invalid_argument, replace, replace-eq-ok, ◌>>=◌,
  >>=-eq-ok, ok-injective, guard, Returns, >>=-Returns, both_dest, no_dest, no_blinded_hops,
}
use boltnd.Lnwire.Tlv.{PubKey}
use boltnd.Lnwire.Payload.{FinalHopPayload, validate_final_payload}
use boltnd.Onionmsg.Request.{SendMessageRequest, validate, blinded_hop_count}
use boltnd.Routes.{is_some}
use boltnd.Rpcserver.{
  RpcHop, RpcPath, RpcSendRequest, parse_features, parse_final_payloads, parse_hops,
  parse_reply_path, parse_destination, parse_send_request,
}

-- The types and the values of final payloads.
abbrev pub payload_entries : List FinalHopPayload → List (ℕ × Bytes)
payload_entries [] = []
payload_entries (p ∷ ps) = (p.tlv_type, p.value) ∷ payload_entries ps

parse_final_payloads-All :
    (entries : List (ℕ × Bytes)) (ps : List FinalHopPayload)
    → parse_final_payloads entries ≡ ok ps
    → All (λ p. 64 ≤ p.tlv_type) ps × (payload_entries ps ≡ entries)
unfolding parse_final_payloads validate_final_payload
parse_final_payloads-All [] ps h = rw (← ok-injective h) (tt, refl)
parse_final_payloads-All ((t, v) ∷ entries) ps h =
    let (u, e, h₁) = >>=-eq-ok (replace (status invalid_argument) (validate_final_payload t)) _ h in
    let (qs, later, made) = >>=-eq-ok (parse_final_payloads entries) _ h₁ in
    let (high, same) = parse_final_payloads-All entries qs later in
    let valid : validate_final_payload t ≡ ok u = replace-eq-ok _ _ e in
    rw (← ok-injective made) ((ground arith, high), rw same)

-- Every list of features of at most 16 bits is parsed, to itself, and no other list is.
pub parse_features-All :
    (fs gs : List ℕ) → (parse_features fs ≡ ok gs) ↔ ((gs ≡ fs) × All (λ f. f < 65536) fs)
unfolding parse_features
parse_features-All fs gs = (to fs gs, λ (same, small). rw same (from fs small))
  where
    from : (fs : List ℕ) → All (λ f. f < 65536) fs → parse_features fs ≡ ok fs
    from [] h = refl
    from (f ∷ fs) h =
        let small : not (ltb 65535 f) ≡ true = ground (arith, h.0) in rw (small, from fs h.1)

    to : (fs gs : List ℕ) → parse_features fs ≡ ok gs → (gs ≡ fs) × All (λ f. f < 65536) fs
    to [] gs h = rw (← ok-injective h) (refl, tt)
    to (f ∷ fs) gs h =
        let (u, e, h₁) = >>=-eq-ok (guard (not (ltb 65535 f)) (status invalid_argument)) _ h in
        let (hs, later, made) = >>=-eq-ok (parse_features fs) _ h₁ in
        let (same, small) = to fs hs later in
        (rw (← ok-injective made, same), (ground arith, small))

-- The call succeeds or is answered with the code InvalidArgument.
abbrev pub IsParsing {ℓ} : {A : Type ℓ} → Result A → Type 0
IsParsing (ok a) = Unit
IsParsing (err e) = e ≡ status invalid_argument
IsParsing panic = ⊥
IsParsing stuck = ⊥

replace-IsParsing {ℓ} :
    {A : Type ℓ} (m : Result A) → Returns m → IsParsing (replace (status invalid_argument) m)
replace-IsParsing (ok a) h = tt
replace-IsParsing (err e) h = refl
replace-IsParsing panic h = absurd h
replace-IsParsing stuck h = absurd h

IsParsing-Returns {ℓ} : {A : Type ℓ} (m : Result A) → IsParsing m → Returns m
IsParsing-Returns (ok a) h = tt
IsParsing-Returns (err e) h = tt
IsParsing-Returns panic h = absurd h
IsParsing-Returns stuck h = absurd h

>>=-IsParsing {ℓ κ} :
    {A : Type ℓ} {B : Type κ} (m : Result A) (f : A → Result B)
    → IsParsing m
    → ((a : A) → IsParsing (f a))
    → IsParsing (m >>= f)
>>=-IsParsing (ok a) f h k = k a
>>=-IsParsing (err e) f h k = h
>>=-IsParsing panic f h k = absurd h
>>=-IsParsing stuck f h k = absurd h

guard-IsParsing : (t : Bool) → IsParsing (guard t (status invalid_argument))
guard-IsParsing true = tt
guard-IsParsing false = refl

guard-Returns : (t : Bool) (e : Error) → Returns (guard t e)
guard-Returns true e = tt
guard-Returns false e = tt

validate_final_payload-Returns : (t : ℕ) → Returns (validate_final_payload t)
unfolding validate_final_payload
validate_final_payload-Returns t = elim (Bool-cases (ltb t 64)) [
  | inl low ↦ rw low tt
  | inr high ↦ rw high tt
]

parse_final_payloads-IsParsing :
    (entries : List (ℕ × Bytes)) → IsParsing (parse_final_payloads entries)
unfolding parse_final_payloads
parse_final_payloads-IsParsing [] = tt
parse_final_payloads-IsParsing ((t, v) ∷ entries) =
    >>=-IsParsing (replace (status invalid_argument) (validate_final_payload t)) _
      (replace-IsParsing (validate_final_payload t) (validate_final_payload-Returns t))
      (λ u.
        >>=-IsParsing (parse_final_payloads entries) _ (parse_final_payloads-IsParsing entries)
          (λ ps. tt))

module _ (parse : Bytes → Result PubKey) where
  -- A request that is parsed is one that the messenger's Validate accepts, with the entries of the request as
  -- its final payloads, all of types from 64 on, and the request's choice of a direct connection.
  pub parse_send_request-validate :
      (req : RpcSendRequest) (s : SendMessageRequest)
      → parse_send_request parse req ≡ ok s
      → (validate s ≡ ok tt)
        × All (λ p. 64 ≤ p.tlv_type) s.final_payloads
        × (payload_entries s.final_payloads ≡ req.final_payloads)
        × (s.direct_connect ≡ req.direct_connect)
  unfolding parse_send_request
  parse_send_request-validate req s h =
      let ((peer, blinded), e₁, h₁) =
        >>=-eq-ok (parse_destination parse req.pubkey req.blinded_destination) _ h in
      let (reply, e₂, h₂) = >>=-eq-ok (parse_reply_path parse req.reply_path) _ h₁ in
      let (ps, e₃, h₃) = >>=-eq-ok (parse_final_payloads req.final_payloads) _ h₂ in
      let request : SendMessageRequest = record {
        peer = peer;
        blinded_destination = blinded;
        reply_path = reply;
        final_payloads = ps;
        direct_connect = req.direct_connect;
      } in
      let (u, e₄, made) = >>=-eq-ok (replace (status invalid_argument) (validate request)) _ h₃ in
      let (high, same) = parse_final_payloads-All req.final_payloads ps e₃ in
      rw (← ok-injective made) (replace-eq-ok _ (validate request) e₄, high, same, refl)

  module _ (returns : (k : Bytes) → Returns (parse k)) where
    parse_key-IsParsing : (k : Bytes) → IsParsing (replace (status invalid_argument) (parse k))
    parse_key-IsParsing k = replace-IsParsing (parse k) (returns k)

    parse_hops-IsParsing : (hs : List RpcHop) → IsParsing (parse_hops parse hs)
    unfolding parse_hops
    parse_hops-IsParsing [] = tt
    parse_hops-IsParsing (h ∷ hs) =
        >>=-IsParsing (replace (status invalid_argument) (parse h.blinded_node_id)) _
          (parse_key-IsParsing h.blinded_node_id)
          (λ k. >>=-IsParsing (parse_hops parse hs) _ (parse_hops-IsParsing hs) (λ hops. tt))

    parse_reply_path-IsParsing : (p : Option RpcPath) → IsParsing (parse_reply_path parse p)
    unfolding parse_reply_path
    parse_reply_path-IsParsing none = tt
    parse_reply_path-IsParsing (some p) =
        >>=-IsParsing (replace (status invalid_argument) (parse p.introduction_node)) _
          (parse_key-IsParsing p.introduction_node)
          (λ intro.
            >>=-IsParsing (replace (status invalid_argument) (parse p.blinding_point)) _
              (parse_key-IsParsing p.blinding_point)
              (λ blinding.
                >>=-IsParsing (parse_hops parse p.hops) _ (parse_hops-IsParsing p.hops)
                  (λ hops. tt)))

    parse_destination-IsParsing :
        (key : Bytes) (p : Option RpcPath) → IsParsing (parse_destination parse key p)
    unfolding parse_destination
    parse_destination-IsParsing key none =
        >>=-IsParsing (guard (not (length key == 0)) (status invalid_argument)) _
          (guard-IsParsing (not (length key == 0)))
          (λ u.
            >>=-IsParsing (replace (status invalid_argument) (parse key)) _
              (parse_key-IsParsing key) (λ k. tt))
    parse_destination-IsParsing key (some p) =
        >>=-IsParsing (guard (length key == 0) (status invalid_argument)) _
          (guard-IsParsing (length key == 0))
          (λ u.
            >>=-IsParsing (replace (status invalid_argument) (parse_reply_path parse (some p))) _
              (replace-IsParsing (parse_reply_path parse (some p))
                (IsParsing-Returns _ (parse_reply_path-IsParsing (some p))))
              (λ dest. tt))

    validate-Returns : (s : SendMessageRequest) → Returns (validate s)
    unfolding validate
    validate-Returns s =
        >>=-Returns (guard (not (is_some s.peer && is_some s.blinded_destination)) both_dest) _
          (guard-Returns _ both_dest)
          (λ u e.
            >>=-Returns (guard (is_some s.peer || is_some s.blinded_destination) no_dest) _
              (guard-Returns _ no_dest)
              (λ w f.
                guard-Returns
                  (not (
                    is_some s.blinded_destination
                    && (blinded_hop_count s.blinded_destination == 0)))
                  no_blinded_hops))

    validated-IsParsing :
        (s : SendMessageRequest)
        → IsParsing (replace (status invalid_argument) (validate s) >>= λ u. ok s)
    validated-IsParsing s =
        >>=-IsParsing (replace (status invalid_argument) (validate s)) (λ u. ok s)
          (replace-IsParsing (validate s) (validate-Returns s)) (λ u. tt)

    -- Where the parser of keys returns, a request is parsed or answered with the code InvalidArgument.
    pub parse_send_request-IsParsing :
        (req : RpcSendRequest) → IsParsing (parse_send_request parse req)
    unfolding parse_send_request
    parse_send_request-IsParsing req =
        >>=-IsParsing (parse_destination parse req.pubkey req.blinded_destination) _
          (parse_destination-IsParsing req.pubkey req.blinded_destination)
          (λ (peer, blinded).
            >>=-IsParsing (parse_reply_path parse req.reply_path) _
              (parse_reply_path-IsParsing req.reply_path)
              (λ reply.
                >>=-IsParsing (parse_final_payloads req.final_payloads) _
                  (parse_final_payloads-IsParsing req.final_payloads)
                  (λ ps. validated-IsParsing (record {
                    peer = peer;
                    blinded_destination = blinded;
                    reply_path = reply;
                    final_payloads = ps;
                    direct_connect = req.direct_connect;
                  }))))
