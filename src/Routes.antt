-- ===== src/Routes.antt =====
-- routes/blinded.go: the blinded route that carries an onion message.
pub mod Relay
pub mod Linked
pub mod Hops
pub mod Direct
pub mod FirstNode
mod Runs
use boltnd.Prelude.{
  ℕ, zero, suc, ◌+◌, ◌-◌, Bool, true, false, not, ◌&&◌, Option, none, some, List, [], ◌∷◌, ◌++◌,
  length, ltb, ◌==◌, Bytes, if◌then◌else◌,
}
use boltnd.Prelude.Bytes.{bytes_eq}
use boltnd.Prelude.Errors.{
  Result, ok, err, panic, wrap, replace, wrapped, text, no_hops_in_request, session_key_required,
  blinding_key_required, no_introduction_node, ◌>>=◌, ◌>>◌, guard,
}
use boltnd.Lnwire.Tlv.{PubKey, Tlv}
use boltnd.Lnwire.ReplyPath.{BlindedHop, ReplyPath}
use boltnd.Lnwire.Payload.{
  FinalHopPayload, OnionMessagePayload, OnionMessage, BlindedRouteData,
  encode_onion_message_payload, encode_blinded_route_data,
}

-- A btcec.PrivateKey, a sphinx.OnionPacket: values that the code only hands on.
abbrev pub PrivKey : Type 0
PrivKey = ℕ

abbrev pub Packet : Type 0
Packet = Bytes

-- sphinx.BlindedPathHop; a nil payload is the empty one.
pub record PathHop : Type 0 where
  pub node_pub : PubKey
  pub payload : Bytes

-- sphinx.BlindedPath
pub record BlindedPath : Type 0 where
  pub introduction_point : PubKey
  pub blinding_point : PubKey
  pub blinded_hops : List PubKey
  pub encrypted_data : List Bytes

-- sphinx.OnionHop, with the payload of its HopPayload.
pub record OnionHop : Type 0 where
  pub node_pub : PubKey
  pub payload : Bytes

-- What the code uses of the packages sphinx and btcec.
pub record Sphinx : Type 0 where
  -- the length of the array type PaymentPath
  pub num_max_hops : ℕ
  -- BuildBlindedPath
  pub build_blinded_path : PrivKey → List PathHop → Result BlindedPath
  -- NewOnionPacket with no associated data, for the filled slots of a path, and the packet's Encode
  pub new_onion_packet : List OnionHop → PrivKey → Result Packet
  pub packet_encode : Packet → Result Bytes
  pub pub_key : PrivKey → PubKey

pub record BlindedRouteRequest : Type 0 where
  pub session_key : Option PrivKey
  pub blinding_key : Option PrivKey
  pub hops : List PubKey
  pub reply_path : Option ReplyPath
  pub blinded_destination : Option ReplyPath
  pub final_payloads : List FinalHopPayload

pub record BlindedRouteResponse : Type 0 where
  pub onion_message : OnionMessage
  pub first_node : PubKey

-- `hops[len(hops)-1]` and `hops[:len(hops)-1]`; both panic with no hops.
unfoldable pub last_hop : List PubKey → Result PubKey
last_hop [] = panic
last_hop (k ∷ []) = ok k
last_hop (k ∷ l ∷ ks) = last_hop (l ∷ ks)

unfoldable pub but_last : List PubKey → List PubKey
but_last [] = []
but_last (k ∷ []) = []
but_last (k ∷ l ∷ ks) = k ∷ but_last (l ∷ ks)

abbrev pub is_some {ℓ} : {A : Type ℓ} → Option A → Bool
is_some none = false
is_some (some a) = true

unfoldable pub validate_destination : List PubKey → Option ReplyPath → Result (Unit {0})
unfolding last_hop bytes_eq
validate_destination hops none = ok tt
validate_destination hops (some dest) = do
  last ← last_hop hops
  guard (bytes_eq last dest.first_node_id) (wrapped no_introduction_node)

-- BlindedRouteRequest.validate
unfoldable pub validate : BlindedRouteRequest → Result (Unit {0})
unfolding validate_destination
validate r = do
  guard (not (length r.hops == 0)) no_hops_in_request
  guard (is_some r.session_key) session_key_required
  guard (is_some r.blinding_key) blinding_key_required
  validate_destination r.hops r.blinded_destination

-- The type blindedStart.
pub record BlindedStart : Type 0 where
  pub unblinded_id : PubKey
  pub blinding_point : PubKey

unfoldable pub blinded_start : Option ReplyPath → Option BlindedStart
blinded_start none = none
blinded_start (some dest) =
    some (record { unblinded_id = dest.first_node_id; blinding_point = dest.blinding_point })

unfoldable pub blinded_hops : Option ReplyPath → List BlindedHop
blinded_hops none = []
blinded_hops (some dest) = dest.hops

-- encodeBlindedData
unfoldable pub encode_blinded_data : Tlv → BlindedRouteData → Result Bytes
encode_blinded_data tlv data_record = do
  guard (is_some data_record.next_node_id) text
  wrap (encode_blinded_route_data tlv data_record)

-- The payload of the last hop in createPathToBlind.
unfoldable pub switch_payload :
    (BlindedRouteData → Result Bytes) → Option BlindedStart → Result Bytes
switch_payload encode none = ok []
switch_payload encode (some start) = replace text (
    encode (record {
      next_node_id = some start.unblinded_id;
      next_blinding_override = some start.blinding_point;
    }))

-- The hops from one on: each has the next one in its payload, the last one what `switch_payload` says.
unfoldable pub path_from :
    (BlindedRouteData → Result Bytes)
    → Option BlindedStart
    → PubKey
    → List PubKey
    → Result (List PathHop)
unfolding switch_payload
path_from encode start k [] = do
  payload ← switch_payload encode start
  ok (record { node_pub = k; payload = payload } ∷ [])
path_from encode start k (next ∷ rest) = do
  payload ← wrap (encode (record { next_node_id = some next; next_blinding_override = none }))
  hops ← path_from encode start next rest
  ok (record { node_pub = k; payload = payload } ∷ hops)

-- createPathToBlind; `hopsToBlind[0]` panics on an empty path.
unfoldable pub create_path_to_blind :
    List PubKey → Option BlindedStart → (BlindedRouteData → Result Bytes) → Result (List PathHop)
unfolding path_from
create_path_to_blind [] start encode = panic
create_path_to_blind (k ∷ ks) start encode = path_from encode start k ks

-- The use of a pointer that may be nil.
abbrev pub dereferenced {ℓ} : {A : Type ℓ} → Option A → Result A
dereferenced none = panic
dereferenced (some a) = ok a

module _ (tlv : Tlv) (sphinx : Sphinx) where
  unfoldable pub create_sphinx_hop : PubKey → OnionMessagePayload → Result OnionHop
  create_sphinx_hop node payload = do
    bytes ← replace text (encode_onion_message_payload tlv payload)
    ok (record { node_pub = node; payload = bytes })

  -- `sphinxPath[i] = hop`, for the slot after those that are filled; past the array it panics.
  unfoldable pub put_hop : List OnionHop → OnionHop → Result (List OnionHop)
  put_hop path hop = if ltb (length path) sphinx.num_max_hops then ok (path ++ hop ∷ []) else panic

  abbrev pub plain_payload : Bytes → OnionMessagePayload
  plain_payload bytes = record {
    reply_path = none;
    encrypted_data = bytes;
    final_hop_payloads = [];
  }

  abbrev pub full_payload : Option ReplyPath → List FinalHopPayload → Bytes → OnionMessagePayload
  full_payload reply finals bytes = record {
    reply_path = reply;
    encrypted_data = bytes;
    final_hop_payloads = finals;
  }

  -- The loop over our own hops. `last` makes the payload of the last one; there has to be a blinded
  -- hop for each piece of encrypted data.
  unfoldable pub add_our_hops :
      (Bytes → OnionMessagePayload)
      → List Bytes
      → List PubKey
      → List OnionHop
      → Result (List OnionHop)
  unfolding create_sphinx_hop put_hop
  add_our_hops last [] nodes path = ok path
  add_our_hops last (bytes ∷ rest) [] path = panic
  add_our_hops last (bytes ∷ []) (node ∷ nodes) path = do
    hop ← wrap (create_sphinx_hop node (last bytes))
    put_hop path hop
  add_our_hops last (bytes ∷ more ∷ rest) (node ∷ nodes) path = do
    hop ← wrap (create_sphinx_hop node (plain_payload bytes))
    path' ← put_hop path hop
    add_our_hops last (more ∷ rest) nodes path'

  -- The loop over the extra hops.
  unfoldable pub add_extra_hops :
      (Bytes → OnionMessagePayload) → List BlindedHop → List OnionHop → Result (List OnionHop)
  unfolding create_sphinx_hop put_hop
  add_extra_hops last [] path = ok path
  add_extra_hops last (extra ∷ []) path = do
    hop ← wrap (create_sphinx_hop extra.blinded_node_id (last extra.encrypted_data))
    put_hop path hop
  add_extra_hops last (extra ∷ more ∷ rest) path = do
    hop ← wrap (create_sphinx_hop extra.blinded_node_id (plain_payload extra.encrypted_data))
    path' ← put_hop path hop
    add_extra_hops last (more ∷ rest) path'

  unfoldable pub blinded_to_sphinx :
      BlindedPath
      → List BlindedHop
      → Option ReplyPath
      → List FinalHopPayload
      → Result (List OnionHop)
  unfolding add_our_hops add_extra_hops
  blinded_to_sphinx route extra reply finals = do
    path ←
        add_our_hops (if length extra == 0 then full_payload reply finals else plain_payload)
          route.encrypted_data route.blinded_hops []
    add_extra_hops (full_payload reply finals) extra path

  unfoldable pub create_onion_message : List OnionHop → PrivKey → PubKey → Result OnionMessage
  create_onion_message path session_key blinding_point = do
    packet ← wrap (sphinx.new_onion_packet path session_key)
    blob ← wrap (sphinx.packet_encode packet)
    ok (record { blinding_point = blinding_point; onion_blob = blob })

  -- The loop of directToBlinded.
  unfoldable pub direct_hops : List BlindedHop → List OnionHop → Result (List OnionHop)
  unfolding create_sphinx_hop put_hop
  direct_hops [] path = ok path
  direct_hops (hop ∷ hops) path = do
    sphinx_hop ← wrap (create_sphinx_hop hop.blinded_node_id (plain_payload hop.encrypted_data))
    path' ← put_hop path sphinx_hop
    direct_hops hops path'

  unfoldable pub direct_to_blinded : BlindedRouteRequest → Result BlindedRouteResponse
  unfolding direct_hops create_onion_message
  direct_to_blinded req = do
    dest ← dereferenced req.blinded_destination
    path ← direct_hops dest.hops []
    session_key ← dereferenced req.session_key
    message ← wrap (create_onion_message path session_key dest.blinding_point)
    ok (record { onion_message = message; first_node = dest.first_node_id })

  -- CreateBlindedRoute after validation, with the hops that are left to blind.
  unfoldable pub route_along :
      BlindedRouteRequest → PrivKey → PrivKey → PubKey → List PubKey → Result BlindedRouteResponse
  unfolding create_path_to_blind blinded_start blinded_hops encode_blinded_data blinded_to_sphinx
      create_onion_message
  route_along req session_key blinding_key first_node hops = do
    to_blind ← wrap (
        create_path_to_blind hops (blinded_start req.blinded_destination) (encode_blinded_data tlv))
    blinded_path ← wrap (sphinx.build_blinded_path blinding_key to_blind)
    sphinx_path ← wrap (
        blinded_to_sphinx blinded_path (blinded_hops req.blinded_destination) req.reply_path
          req.final_payloads)
    message ← wrap (create_onion_message sphinx_path session_key (sphinx.pub_key blinding_key))
    ok (record { onion_message = message; first_node = first_node })

  -- The trimming of the introduction node: with no hops left the message goes to it directly.
  unfoldable pub route_to :
      BlindedRouteRequest
      → PrivKey
      → PrivKey
      → PubKey
      → Option ReplyPath
      → Result BlindedRouteResponse
  unfolding but_last route_along direct_to_blinded
  route_to req session_key blinding_key first_node none =
      route_along req session_key blinding_key first_node req.hops
  route_to req session_key blinding_key first_node (some dest) =
      if length (but_last req.hops) == 0
      then direct_to_blinded req
      else route_along req session_key blinding_key first_node (but_last req.hops)

  -- The keys and the first hop of a request, which a valid request has.
  unfoldable pub with_keys :
      BlindedRouteRequest
      → Option PrivKey
      → Option PrivKey
      → List PubKey
      → Result BlindedRouteResponse
  unfolding route_to
  with_keys req (some session_key) (some blinding_key) (first ∷ hops) =
      route_to req session_key blinding_key first req.blinded_destination
  with_keys req _ _ _ = panic

  unfoldable pub create_blinded_route : BlindedRouteRequest → Result BlindedRouteResponse
  unfolding validate with_keys
  create_blinded_route req = do
    wrap (validate req)
    with_keys req req.session_key req.blinding_key req.hops
