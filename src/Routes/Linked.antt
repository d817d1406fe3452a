-- ===== src/Routes/Linked.antt =====
-- `createPathToBlind` links each hop to the next; `validate` and what a valid request has.
use mathlib.Core.Path.{subst}
use boltnd.Prelude.{
  ℕ, ◌≤◌, ◌≡◌, refl, ap, ◌∙◌, not, List, [], ◌∷◌, length, arith, ◌==◌, Bytes, Bool, true, Option,
  none, some,
}
use boltnd.Prelude.Bytes.{bytes_eq-eq}
use boltnd.Prelude.Errors.{
  Error, Result, ok, wrap, no_hops_in_request, session_key_required, blinding_key_required,
  wrap-eq-ok, ok-injective, >>=-eq-ok, guard,
}
use boltnd.Lnwire.Tlv.{PubKey}
use boltnd.Lnwire.ReplyPath.{ReplyPath}
use boltnd.Lnwire.Payload.{BlindedRouteData}
use boltnd.Routes.{
  PathHop, BlindedRouteRequest, BlindedStart, last_hop, is_some, validate_destination, validate,
  switch_payload, path_from, create_path_to_blind,
}

-- Each hop has its node and, in its payload, the next node; the last one has what connects the path
-- to a blinded route.
abbrev pub Linked :
    (BlindedRouteData → Result Bytes)
    → Option BlindedStart
    → PubKey
    → List PubKey
    → List PathHop
    → Type 0
Linked encode start k [] (h ∷ []) = (h.node_pub ≡ k) × (switch_payload encode start ≡ ok h.payload)
Linked encode start k (next ∷ ks) (h ∷ hs) =
    (h.node_pub ≡ k)
    × (encode (record { next_node_id = some next; next_blinding_override = none }) ≡ ok h.payload)
    × Linked encode start next ks hs
Linked encode start k _ _ = ⊥

module _ (encode : BlindedRouteData → Result Bytes) (start : Option BlindedStart) where
  path_from-Linked :
      (k : PubKey) (ks : List PubKey) (hops : List PathHop)
      → path_from encode start k ks ≡ ok hops
      → Linked encode start k ks hops
  unfolding path_from
  path_from-Linked k [] hops h =
      let (payload, e, h₁) = >>=-eq-ok (switch_payload encode start) _ h in
      subst (Linked encode start k []) (ok-injective h₁) (refl, e)
  path_from-Linked k (next ∷ ks) hops h =
      let (payload, e, h₁) = >>=-eq-ok (wrap (encode _)) _ h in
      let (later, e₁, h₂) = >>=-eq-ok (path_from encode start next ks) _ h₁ in
      subst (Linked encode start k (next ∷ ks)) (ok-injective h₂)
        (refl, wrap-eq-ok _ e, path_from-Linked next ks later e₁)

  -- A path that is made has one hop for each key, in order, linked from each to the next.
  pub create_path_to_blind-Linked :
      (k : PubKey) (ks : List PubKey) (hops : List PathHop)
      → create_path_to_blind (k ∷ ks) start encode ≡ ok hops
      → Linked encode start k ks hops
  unfolding create_path_to_blind
  create_path_to_blind-Linked k ks hops h = path_from-Linked k ks hops h

-- What `validate` makes sure of: a hop, both keys, and that the last hop is the introduction node of
-- the blinded destination, if there is one.
pub record IsRoutable (r : BlindedRouteRequest) : Type 0 where
  pub some_hop : 1 ≤ length r.hops
  pub session : is_some r.session_key ≡ true
  pub blinding : is_some r.blinding_key ≡ true
  pub introduction :
      (dest : ReplyPath)
      → r.blinded_destination ≡ some dest
      → last_hop r.hops ≡ ok dest.first_node_id

passed : (b : Bool) (e : Error) {u : Unit {0}} → guard b e ≡ ok u → b ≡ true
passed b e h = ground arith

validate_destination-introduction :
    (hops : List PubKey) (o : Option ReplyPath) (dest : ReplyPath) {u : Unit {0}}
    → validate_destination hops o ≡ ok u
    → o ≡ some dest
    → last_hop hops ≡ ok dest.first_node_id
unfolding validate_destination
validate_destination-introduction hops none dest h e = absurd (cc)
validate_destination-introduction hops (some d) dest h e =
    let (last, found, h₁) = >>=-eq-ok (last_hop hops) _ h in
    let same : last ≡ d.first_node_id = bytes_eq-eq last d.first_node_id (passed _ _ h₁) in
    found ∙ ap ok (same ∙ ap (λ (p : ReplyPath). p.first_node_id) (some_inj e))
  where
    some_inj : {a b : ReplyPath} → some a ≡ some b → a ≡ b
    some_inj p = cc

-- A request that passes validation has these.
pub validate-IsRoutable : (r : BlindedRouteRequest) → validate r ≡ ok tt → IsRoutable r
unfolding validate
validate-IsRoutable r h =
    let (u, hop, h₁) = >>=-eq-ok (guard (not (length r.hops == 0)) no_hops_in_request) _ h in
    let (v, session, h₂) = >>=-eq-ok (guard (is_some r.session_key) session_key_required) _ h₁ in
    let (w, blinding, h₃) = >>=-eq-ok (guard (is_some r.blinding_key) blinding_key_required) _ h₂ in
    record {
      some_hop = of_test (length r.hops) (passed _ _ hop);
      session = passed _ _ session;
      blinding = passed _ _ blinding;
      introduction =
          λ dest e. validate_destination-introduction r.hops r.blinded_destination dest h₃ e;
    }
  where
    of_test : (n : ℕ) → not (n == 0) ≡ true → 1 ≤ n
    of_test n h = ground arith
