-- ===== src/Routes/FirstNode.antt =====
-- `CreateBlindedRoute`: the node that its message is to be sent to.
use mathlib.Core.Path.{subst}
use boltnd.Prelude.{
  ℕ, suc, arith, ◌≡◌, refl, sym, ap, ◌∙◌, true, Option, none, some, List, [], ◌∷◌, length, ◌==◌,
  Bool-cases, inl, inr,
}
use boltnd.Prelude.Errors.{ok, wrap, wrap-eq-ok, >>=-eq-ok, ok-injective}
use boltnd.Lnwire.Tlv.{PubKey, Tlv}
use boltnd.Lnwire.ReplyPath.{ReplyPath}
use boltnd.Routes.{
  PrivKey, Sphinx, BlindedRouteRequest, BlindedRouteResponse, last_hop, but_last, validate,
  direct_hops, create_onion_message, dereferenced, direct_to_blinded, blinded_start, blinded_hops,
  create_path_to_blind, encode_blinded_data, blinded_to_sphinx, route_along, route_to, with_keys,
  create_blinded_route,
}
use boltnd.Routes.Linked.{validate-IsRoutable}

module _ (tlv : Tlv) (sphinx : Sphinx) where
  route_along-first_node :
      (req : BlindedRouteRequest) (session_key blinding_key : PrivKey) (first : PubKey)
      (hops : List PubKey) (resp : BlindedRouteResponse)
      → route_along tlv sphinx req session_key blinding_key first hops ≡ ok resp
      → resp.first_node ≡ first
  unfolding route_along
  route_along-first_node req session_key blinding_key first hops resp h =
      let (to_blind, _, h₁) =
        >>=-eq-ok
          (wrap (
            create_path_to_blind hops (blinded_start req.blinded_destination)
              (encode_blinded_data tlv)))
          _ h in
      let (path, _, h₂) = >>=-eq-ok (wrap (sphinx.build_blinded_path blinding_key to_blind)) _ h₁ in
      let (onion, _, h₃) =
        >>=-eq-ok
          (wrap (
            blinded_to_sphinx tlv sphinx path (blinded_hops req.blinded_destination) req.reply_path
              req.final_payloads))
          _ h₂ in
      let (message, _, h₄) =
        >>=-eq-ok
          (wrap (create_onion_message tlv sphinx onion session_key (sphinx.pub_key blinding_key))) _
          h₃ in
      sym (ap (λ (r : BlindedRouteResponse). r.first_node) (ok-injective h₄))

  direct_to_blinded-first_node :
      (req : BlindedRouteRequest) (dest : ReplyPath) (resp : BlindedRouteResponse)
      → req.blinded_destination ≡ some dest
      → direct_to_blinded tlv sphinx req ≡ ok resp
      → resp.first_node ≡ dest.first_node_id
  unfolding direct_to_blinded
  direct_to_blinded-first_node req dest resp set h =
      let (path, _, h₁) = >>=-eq-ok (direct_hops tlv sphinx dest.hops []) _ (rw set at h) in
      let (session_key, _, h₃) = >>=-eq-ok (dereferenced req.session_key) _ h₁ in
      let (message, _, h₂) =
        >>=-eq-ok (wrap (create_onion_message tlv sphinx path session_key dest.blinding_point)) _
          h₃ in
      sym (ap (λ (r : BlindedRouteResponse). r.first_node) (ok-injective h₂))

  not_empty : (n : ℕ) → (suc n == 0) ≡ true → ⊥
  not_empty n h = ground arith

  only_hop :
      (k : PubKey) (ks : List PubKey) (node : PubKey)
      → (length (but_last (k ∷ ks)) == 0) ≡ true
      → last_hop (k ∷ ks) ≡ ok node
      → node ≡ k
  unfolding but_last last_hop
  only_hop k [] node short last = sym (ok-injective last)
  only_hop k (l ∷ ks) node short last = absurd (not_empty (length (but_last (l ∷ ks))) short)

  route_to-first_node :
      (req : BlindedRouteRequest) (k : PubKey) (ks : List PubKey) (resp : BlindedRouteResponse)
      (session_key blinding_key : PrivKey) (dest : Option ReplyPath)
      → req.hops ≡ k ∷ ks
      → req.blinded_destination ≡ dest
      → ((d : ReplyPath) → dest ≡ some d → last_hop (k ∷ ks) ≡ ok d.first_node_id)
      → route_to tlv sphinx req session_key blinding_key k dest ≡ ok resp
      → resp.first_node ≡ k
  unfolding route_to
  route_to-first_node req k ks resp session_key blinding_key none hops set last h =
      route_along-first_node req session_key blinding_key k req.hops resp h
  route_to-first_node req k ks resp session_key blinding_key (some d) hops set last h =
      elim (Bool-cases (length (but_last req.hops) == 0)) [
        | inl short ↦
            direct_to_blinded-first_node req d resp set (rw short at h)
            ∙ only_hop k ks d.first_node_id (rw hops at short) (last d refl)
        | inr long ↦ route_along-first_node req session_key blinding_key k _ resp (rw long at h)
      ]

  with_keys-first_node :
      (req : BlindedRouteRequest) (k : PubKey) (ks : List PubKey) (resp : BlindedRouteResponse)
      (session_key blinding_key : Option PrivKey)
      → req.hops ≡ k ∷ ks
      → ((d : ReplyPath)
          → req.blinded_destination ≡ some d
          → last_hop (k ∷ ks) ≡ ok d.first_node_id)
      → with_keys tlv sphinx req session_key blinding_key (k ∷ ks) ≡ ok resp
      → resp.first_node ≡ k
  unfolding with_keys
  with_keys-first_node req k ks resp (some s) (some b) hops last h =
      route_to-first_node req k ks resp s b req.blinded_destination hops refl last h
  with_keys-first_node req k ks resp (some s) none hops last h = absurd (cc)
  with_keys-first_node req k ks resp none b hops last h = absurd (cc)

  -- The message of a route goes to the request's first hop, also where that is the introduction node of
  -- the blinded destination and our own part of the route is left out.
  pub create_blinded_route-first_node :
      (req : BlindedRouteRequest) (k : PubKey) (ks : List PubKey) (resp : BlindedRouteResponse)
      → req.hops ≡ k ∷ ks
      → create_blinded_route tlv sphinx req ≡ ok resp
      → resp.first_node ≡ k
  unfolding create_blinded_route
  create_blinded_route-first_node req k ks resp hops h =
      let (u, valid, h₁) = >>=-eq-ok (wrap (validate req)) _ h in
      let routable = validate-IsRoutable req (wrap-eq-ok _ valid) in
      with_keys-first_node req k ks resp req.session_key req.blinding_key hops
        (λ d e. rw hops at (routable.introduction d e))
        (subst (λ l. with_keys tlv sphinx req req.session_key req.blinding_key l ≡ ok resp) hops h₁)
