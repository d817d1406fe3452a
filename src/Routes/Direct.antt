-- ===== src/Routes/Direct.antt =====
-- `directToBlinded`: the message that goes straight to the introduction node of a blinded route.
use mathlib.Core.List.{append-nil, append_assoc}
use boltnd.Prelude.{
  refl, ap, sym, ◌∙◌, none, ◌+◌, ◌≤◌, ◌<◌, ◌≡◌, List, [], ◌∷◌, ◌++◌, length, length-append, arith,
  All, some, Option,
}
use boltnd.Prelude.Bytes.{bytes_eq_refl}
use boltnd.Prelude.Errors.{ok, panic, wrap, wrap-eq-ok, >>=-eq-ok, ok-injective}
use boltnd.Lnwire.Tlv.{PubKey, Tlv}
use boltnd.Lnwire.ReplyPath.{BlindedHop, ReplyPath}
use boltnd.Lnwire.Payload.{FinalHopPayload, OnionMessage, encode_onion_message_payload}
use boltnd.Routes.{
  PrivKey, OnionHop, Sphinx, BlindedRouteRequest, but_last, validate_destination, validate,
  with_keys, route_to, create_blinded_route, create_sphinx_hop, put_hop, plain_payload, direct_hops,
  direct_to_blinded, create_onion_message, Packet, BlindedRouteResponse,
}
use boltnd.Routes.Hops.{create_sphinx_hop-parts, put_hop-eq}

module _ (tlv : Tlv) (sphinx : Sphinx) where
  pub create_onion_message-parts :
      (path : List OnionHop) (sk : PrivKey) (point : PubKey) (message : OnionMessage)
      → create_onion_message tlv sphinx path sk point ≡ ok message
      → (packet : Packet) × (sphinx.new_onion_packet path sk ≡ ok packet)
        × (sphinx.packet_encode packet ≡ ok message.onion_blob)
        × (message.blinding_point ≡ point)
  unfolding create_onion_message
  create_onion_message-parts path sk point message h =
      let (packet, wrapped_up, h₁) = >>=-eq-ok (wrap (sphinx.new_onion_packet path sk)) _ h in
      let (blob, encoded, h₂) = >>=-eq-ok (wrap (sphinx.packet_encode packet)) _ h₁ in
      let made = ok-injective h₂ in
      rw (← made) (packet, wrap-eq-ok _ wrapped_up, wrap-eq-ok _ encoded, refl)

  -- The sphinx hops stand for the hops of the blinded route, one for each in their order, and each payload holds the
  -- hop's encrypted data and nothing else.
  abbrev pub IsBare : List BlindedHop → List OnionHop → Type 0
  IsBare [] [] = Unit
  IsBare (h ∷ hs) (o ∷ os) =
      (o.node_pub ≡ h.blinded_node_id)
      × (encode_onion_message_payload tlv (record {
        reply_path = none;
        encrypted_data = h.encrypted_data;
        final_hop_payloads = [];
      })
          ≡ ok o.payload)
      × IsBare hs os
  IsBare _ _ = ⊥

  direct_hops-IsBare :
      (hops : List BlindedHop) (path out : List OnionHop)
      → direct_hops tlv sphinx hops path ≡ ok out
      → (new : List OnionHop) × (path ++ new ≡ out) × (IsBare hops new)
  unfolding direct_hops
  direct_hops-IsBare [] path out h = ([], append-nil path ∙ ok-injective h, tt)
  direct_hops-IsBare (x ∷ xs) path out h =
      let (hop, made, h₁) =
        >>=-eq-ok
          (wrap (
            create_sphinx_hop tlv sphinx x.blinded_node_id
              (plain_payload tlv sphinx x.encrypted_data)))
          _ h in
      let (path', put, h₂) = >>=-eq-ok (put_hop tlv sphinx path hop) _ h₁ in
      let (new, same, bare) = direct_hops-IsBare xs path' out h₂ in
      let (node, payload) = create_sphinx_hop-parts tlv sphinx x.blinded_node_id _ hop made in
      (
        hop ∷ new,
        sym (append_assoc path (hop ∷ []) new)
            ∙ ap (λ p. p ++ new) (put_hop-eq tlv sphinx path hop path' put)
            ∙ same,
        (node, payload, bare),
      )

module _ (tlv : Tlv) (sphinx : Sphinx) (session_key blinding_key : PrivKey) (dest : ReplyPath) where
  -- The request to send along one hop, the introduction node of `dest`.
  abbrev pub direct_request : Option ReplyPath → List FinalHopPayload → BlindedRouteRequest
  direct_request reply finals = record {
    session_key = some session_key;
    blinding_key = some blinding_key;
    hops = dest.first_node_id ∷ [];
    reply_path = reply;
    blinded_destination = some dest;
    final_payloads = finals;
  }

  -- What a response holds that goes straight to the introduction node.
  pub record IsDirect (resp : BlindedRouteResponse) : Type 0 where
    pub path : List OnionHop
    pub packet : Packet
    pub hops : IsBare tlv sphinx dest.hops path
    pub wrapped_up : sphinx.new_onion_packet path session_key ≡ ok packet
    pub blob : sphinx.packet_encode packet ≡ ok resp.onion_message.onion_blob
    pub point : resp.onion_message.blinding_point ≡ dest.blinding_point
    pub node : resp.first_node ≡ dest.first_node_id

  direct_to_blinded-IsDirect :
      (req : BlindedRouteRequest) (resp : BlindedRouteResponse)
      → req.session_key ≡ some session_key
      → req.blinded_destination ≡ some dest
      → direct_to_blinded tlv sphinx req ≡ ok resp
      → IsDirect resp
  unfolding direct_to_blinded
  direct_to_blinded-IsDirect req resp key set h =
      let (path, built, h₁) =
        >>=-eq-ok (direct_hops tlv sphinx dest.hops []) _ (rw (key, set) at h) in
      let (message, made, h₂) =
        >>=-eq-ok (wrap (create_onion_message tlv sphinx path session_key dest.blinding_point)) _
          h₁ in
      let (new, same, bare) = direct_hops-IsBare tlv sphinx dest.hops [] path built in
      let (packet, wrapped_up, blob, point) =
        create_onion_message-parts tlv sphinx path session_key dest.blinding_point message
          (wrap-eq-ok _ made) in
      rw (← ok-injective h₂) (record {
        path = path;
        packet = packet;
        hops = rw (← same) bare;
        wrapped_up = wrapped_up;
        blob = blob;
        point = point;
        node = refl;
      })

  -- A route whose only hop is the introduction node of the blinded destination: the onion of its message is made
  -- of one payload for each hop of the destination, in their order, with the hop's encrypted data, no reply path
  -- and no final payload, whatever reply path and final payloads the request has. The onion is made with our
  -- session key, and the message has the blinding point of the destination and goes to its introduction node.
  pub create_blinded_route-IsDirect :
      (reply : Option ReplyPath) (finals : List FinalHopPayload) (resp : BlindedRouteResponse)
      → create_blinded_route tlv sphinx (direct_request reply finals) ≡ ok resp
      → IsDirect resp
  unfolding create_blinded_route validate with_keys route_to but_last validate_destination
  create_blinded_route-IsDirect reply finals resp h =
      direct_to_blinded-IsDirect (direct_request reply finals) resp refl refl
        (rw (bytes_eq_refl dest.first_node_id) at h)

  -- Every hop's payload can be encoded.
  abbrev pub Encodable : BlindedHop → Type 0
  Encodable h =
      (o : OnionHop) × (create_sphinx_hop tlv sphinx h.blinded_node_id
          (plain_payload tlv sphinx h.encrypted_data)
        ≡ ok o)

  direct_hops-panic :
      (hops : List BlindedHop) (path : List OnionHop)
      → All Encodable hops
      → length path ≤ sphinx.num_max_hops
      → sphinx.num_max_hops < length hops + length path
      → direct_hops tlv sphinx hops path ≡ panic
  unfolding direct_hops put_hop
  direct_hops-panic [] path h fits long = absurd (omega arith)
  direct_hops-panic (x ∷ hops) path h fits long =
      let (o, made) = h.0 in
      rw made
        (ground (arith, length-append path (o ∷ []), direct_hops-panic hops (path ++ o ∷ []) h.1))

  -- A blinded destination with more hops than a sphinx path has slots makes the program panic, if
  -- the payload of every hop can be encoded.
  pub direct_to_blinded-panic :
      (reply : Option ReplyPath) (finals : List FinalHopPayload)
      → All Encodable dest.hops
      → sphinx.num_max_hops < length dest.hops
      → direct_to_blinded tlv sphinx (direct_request reply finals) ≡ panic
  unfolding direct_to_blinded
  direct_to_blinded-panic reply finals h long =
      rw (direct_hops-panic dest.hops [] h (omega arith) (omega arith))
