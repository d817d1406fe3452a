-- ===== src/Onionmsg/Delivered.antt =====
-- A message from SendMessage of one node to the handlers of another (onionmsg/messenger.go, SendMessage and
-- handleOnionMessage).
use boltnd.Prelude.{
  ◌≡◌, ap, sym, ◌∙◌, Option, none, some, List, [], ◌∷◌, ltb, Bytes, Bool-cases, inl, inr,
}
use boltnd.Prelude.Errors.{
  Result, ok, panic, wrap, wrap-eq-ok, replace, replace-eq-ok, >>=-eq-ok, ok-injective, text,
}
use boltnd.Lnwire.Tlv.{PubKey, Tlv}
use boltnd.Lnwire.Payload.{FinalHopPayload, OnionMessage, encode_onion_message_payload}
use boltnd.Lnwire.ReplyPath.{ReplyPath}
use boltnd.Routes.{
  PrivKey, Packet, PathHop, BlindedPath, OnionHop, Sphinx, BlindedRouteRequest,
  BlindedRouteResponse, create_path_to_blind, path_from, switch_payload, create_sphinx_hop, put_hop,
  full_payload, add_our_hops, add_extra_hops, blinded_to_sphinx, create_onion_message, validate,
  route_along, route_to, with_keys, blinded_start, blinded_hops, create_blinded_route,
}
use boltnd.Routes.Direct.{create_onion_message-parts}
use boltnd.Onionmsg.Request.{SendMessageRequest}
use boltnd.Onionmsg.Send.{along}

abbrev pub lone_hop : PubKey → List PathHop
lone_hop target = record { node_pub = target; payload = [] } ∷ []

module _ (tlv : Tlv) (sphinx : Sphinx) where
  -- The onion of a message straight to a node, and the payload in it.
  pub record IsStraight (bk sk : PrivKey) (target : PubKey) (reply : Option ReplyPath)
      (finals : List FinalHopPayload) (message : OnionMessage) : Type 0 where
    pub route : BlindedPath
    pub id : PubKey
    pub encrypted : Bytes
    pub bytes : Bytes
    pub packet : Packet
    pub built : sphinx.build_blinded_path bk (lone_hop target) ≡ ok route
    pub hops : route.blinded_hops ≡ id ∷ []
    pub encoded :
        encode_onion_message_payload tlv (full_payload tlv sphinx reply finals encrypted) ≡ ok bytes
    pub wrapped_up :
        sphinx.new_onion_packet (record { node_pub = id; payload = bytes } ∷ []) sk ≡ ok packet
    pub blob : sphinx.packet_encode packet ≡ ok message.onion_blob
    pub point : message.blinding_point ≡ sphinx.pub_key bk

  -- BuildBlindedPath gives a hop and its encrypted data for each hop.
  abbrev pub IsLone : BlindedPath → Type 0
  IsLone route =
      (id : PubKey) × (d : Bytes) × (route.blinded_hops ≡ id ∷ []) × (route.encrypted_data ≡ d ∷ [])

  put_first :
      (hop : OnionHop) (path : List OnionHop)
      → put_hop tlv sphinx [] hop ≡ ok path
      → path ≡ hop ∷ []
  unfolding put_hop
  put_first hop path h = elim (Bool-cases (ltb 0 sphinx.num_max_hops)) [
    | inl room ↦ sym (ok-injective (rw room at h))
    | inr full ↦ absurd (refused (rw full at h))
  ]
    where
      refused : ◌≡◌ {A = Result (List OnionHop)} panic (ok path) → ⊥
      refused h = cc

  lone-sphinx :
      (route : BlindedPath) (reply : Option ReplyPath) (finals : List FinalHopPayload) (id : PubKey)
      (d : Bytes) (path : List OnionHop)
      → route.blinded_hops ≡ id ∷ []
      → route.encrypted_data ≡ d ∷ []
      → blinded_to_sphinx tlv sphinx route [] reply finals ≡ ok path
      → (bytes : Bytes) × (encode_onion_message_payload tlv (full_payload tlv sphinx reply finals d)
          ≡ ok bytes)
        × (path ≡ record { node_pub = id; payload = bytes } ∷ [])
  unfolding blinded_to_sphinx add_our_hops add_extra_hops create_sphinx_hop
  lone-sphinx route reply finals id d path hops encrypted h =
      let (ours, added, same) =
        >>=-eq-ok
          (add_our_hops tlv sphinx (full_payload tlv sphinx reply finals) (d ∷ []) (id ∷ []) [])
          (λ p. add_extra_hops tlv sphinx (full_payload tlv sphinx reply finals) [] p)
          (rw (hops, encrypted) at h) in
      let (hop, made, put) =
        >>=-eq-ok (wrap (create_sphinx_hop tlv sphinx id (full_payload tlv sphinx reply finals d)))
          (λ hop. put_hop tlv sphinx [] hop) added in
      let (bytes, encoded, hop_made) =
        >>=-eq-ok
          (replace text (encode_onion_message_payload tlv (full_payload tlv sphinx reply finals d)))
          (λ b. ok (with b)) (wrap-eq-ok _ made) in
      (
        bytes,
        replace-eq-ok text _ encoded,
        sym (ok-injective same)
            ∙ put_first hop ours put
            ∙ ap (λ x. x ∷ []) (sym (ok-injective hop_made)),
      )
    where
      with : Bytes → OnionHop
      with b = record { node_pub = id; payload = b }

  -- The request of a message straight to a node.
  abbrev plain_request :
      Option ReplyPath → List FinalHopPayload → PrivKey → PrivKey → PubKey → BlindedRouteRequest
  plain_request reply finals sk bk target = record {
    session_key = some sk;
    blinding_key = some bk;
    hops = target ∷ [];
    reply_path = reply;
    blinded_destination = none;
    final_payloads = finals;
  }

  route_along-IsStraight :
      ((bk : PrivKey) (target : PubKey) (route : BlindedPath)
        → sphinx.build_blinded_path bk (lone_hop target) ≡ ok route
        → IsLone route)
      → (reply : Option ReplyPath) (finals : List FinalHopPayload) (sk bk : PrivKey)
        (target : PubKey) (resp : BlindedRouteResponse)
      → route_along tlv sphinx (plain_request reply finals sk bk target) sk bk target (target ∷ [])
        ≡ ok resp
      → IsStraight bk sk target reply finals resp.onion_message
  unfolding route_along blinded_hops blinded_start create_path_to_blind path_from switch_payload
  route_along-IsStraight lone reply finals sk bk target resp h =
      let (route, built, h₂) =
        >>=-eq-ok (wrap (sphinx.build_blinded_path bk (lone_hop target))) _ h in
      let (path, filled, h₃) =
        >>=-eq-ok (wrap (blinded_to_sphinx tlv sphinx route [] reply finals)) _ h₂ in
      let (message, made, h₄) =
        >>=-eq-ok (wrap (create_onion_message tlv sphinx path sk (sphinx.pub_key bk))) _ h₃ in
      let built₁ = wrap-eq-ok (sphinx.build_blinded_path bk (lone_hop target)) built in
      let (id, d, ids, ds) = lone bk target route built₁ in
      let (bytes, encoded, same) =
        lone-sphinx route reply finals id d path ids ds (wrap-eq-ok _ filled) in
      let (packet, wrapped_up, blob, point) =
        create_onion_message-parts tlv sphinx path sk (sphinx.pub_key bk) message
          (wrap-eq-ok _ made) in
      let sent : message ≡ resp.onion_message =
        ap (λ (r : BlindedRouteResponse). r.onion_message) (ok-injective h₄) in
      record {
        route = route;
        id = id;
        encrypted = d;
        bytes = bytes;
        packet = packet;
        built = built₁;
        hops = ids;
        encoded = encoded;
        wrapped_up = ap (λ p. sphinx.new_onion_packet p sk) (sym same) ∙ wrapped_up;
        blob = blob ∙ ap (λ (m : OnionMessage). ok m.onion_blob) sent;
        point = sym (ap (λ (m : OnionMessage). m.blinding_point) sent) ∙ point;
      }

  plain-IsStraight :
      ((bk : PrivKey) (target : PubKey) (route : BlindedPath)
        → sphinx.build_blinded_path bk (lone_hop target) ≡ ok route
        → IsLone route)
      → (reply : Option ReplyPath) (finals : List FinalHopPayload) (sk bk : PrivKey)
        (target : PubKey) (resp : BlindedRouteResponse)
      → create_blinded_route tlv sphinx (plain_request reply finals sk bk target) ≡ ok resp
      → IsStraight bk sk target reply finals resp.onion_message
  unfolding create_blinded_route with_keys route_to
  plain-IsStraight lone reply finals sk bk target resp h =
      let (_, _, h₁) =
        >>=-eq-ok (wrap (validate (plain_request reply finals sk bk target)))
          (λ _.
            with_keys tlv sphinx (plain_request reply finals sk bk target) (some sk) (some bk)
              (target ∷ []))
          h in
      route_along-IsStraight lone reply finals sk bk target resp h₁

  pub create_blinded_route-IsStraight :
      ((bk : PrivKey) (target : PubKey) (route : BlindedPath)
        → sphinx.build_blinded_path bk (lone_hop target) ≡ ok route
        → IsLone route)
      → (req : SendMessageRequest) (sk bk : PrivKey) (target : PubKey) (resp : BlindedRouteResponse)
      → req.blinded_destination ≡ none
      → create_blinded_route tlv sphinx (along req sk bk (target ∷ [])) ≡ ok resp
      → IsStraight bk sk target req.reply_path req.final_payloads resp.onion_message
  create_blinded_route-IsStraight lone req sk bk target resp plain h =
      plain-IsStraight lone req.reply_path req.final_payloads sk bk target resp (rw plain at h)
