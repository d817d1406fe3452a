-- ===== src/Rpcserver.antt =====
-- rpcserver: the requests and answers of the rpc server, read and written. A message field that is nil
-- is none. The readers give grpc status errors.
pub mod Paths
pub mod Parsed
pub mod Calls
pub mod Life
pub mod Startup
pub mod Subscription
pub mod Subscribe
mod Runs
use boltnd.Prelude.{
  ℕ, Bool, true, false, not, ◌&&◌, ◌||◌, Option, none, some, List, [], ◌∷◌, length, ltb, ◌==◌,
  Bytes, if◌then◌else◌,
}
use boltnd.Prelude.Errors.{
  Error, Result, ok, err, panic, status, invalid_argument, internal, replace, ◌>>=◌, ◌>>◌, guard,
}
use boltnd.Lnwire.Tlv.{PubKey}
use boltnd.Lnwire.ReplyPath.{BlindedHop, ReplyPath}
use boltnd.Lnwire.Payload.{FinalHopPayload, validate_final_payload}
use boltnd.Lnwire.Bolt12.{Bolt12}
use boltnd.Lnwire.Offer.{Offer}
use boltnd.Routes.{BlindedPath, is_some}
use boltnd.Onionmsg.Request.{SendMessageRequest, new_send_message_request, validate}

-- offersrpc.BlindedHop, offersrpc.BlindedPath
pub record RpcHop : Type 0 where
  pub blinded_node_id : Bytes
  pub encrypted_data : Bytes

pub record RpcPath : Type 0 where
  pub introduction_node : Bytes
  pub blinding_point : Bytes
  pub hops : List RpcHop

-- offersrpc.SendOnionMessageRequest; the map of final payloads is the entries in the order ranged over.
pub record RpcSendRequest : Type 0 where
  pub pubkey : Bytes
  pub blinded_destination : Option RpcPath
  pub reply_path : Option RpcPath
  pub final_payloads : List (ℕ × Bytes)
  pub direct_connect : Bool

-- offersrpc.Offer
pub record RpcOffer : Type 0 where
  pub min_amount_msat : ℕ
  pub description : Bytes
  pub features : Bytes
  pub expiry_unix_seconds : ℕ
  pub issuer : Bytes
  pub min_quantity : ℕ
  pub max_quantity : ℕ
  pub node_id : Bytes
  pub signature : Bytes

-- composeReplyPath; a key serializes to itself.
unfoldable pub compose_hops : List BlindedHop → List RpcHop
compose_hops [] = []
compose_hops (h ∷ hs) =
    record { blinded_node_id = h.blinded_node_id; encrypted_data = h.encrypted_data }
    ∷ compose_hops hs

unfoldable pub compose_reply_path : Option ReplyPath → Option RpcPath
unfolding compose_hops
compose_reply_path none = none
compose_reply_path (some p) = some (record {
  introduction_node = p.first_node_id;
  blinding_point = p.blinding_point;
  hops = compose_hops p.hops;
})

-- The loop of composeBlindedRoute; `route.EncryptedData[i]` is out of range if there are fewer data than hops.
unfoldable pub compose_route_hops : List PubKey → List Bytes → Result (List RpcHop)
compose_route_hops [] contents = ok []
compose_route_hops (k ∷ ks) [] = panic
compose_route_hops (k ∷ ks) (c ∷ cs) = do
  hops ← compose_route_hops ks cs
  ok (record { blinded_node_id = k; encrypted_data = c } ∷ hops)

unfoldable pub compose_blinded_route : BlindedPath → Result RpcPath
unfolding compose_route_hops
compose_blinded_route route = do
  hops ← compose_route_hops route.blinded_hops route.encrypted_data
  ok (record {
    introduction_node = route.introduction_point;
    blinding_point = route.blinding_point;
    hops = hops;
  })

-- parseGenerateBlindedRouteRequest
unfoldable pub parse_features : List ℕ → Result (List ℕ)
parse_features [] = ok []
parse_features (f ∷ fs) = do
  guard (not (ltb 65535 f)) (status invalid_argument)
  features ← parse_features fs
  ok (f ∷ features)

-- parseSubscribeOnionPayloadRequest
unfoldable pub parse_subscribe_request : ℕ → Result ℕ
unfolding validate_final_payload
parse_subscribe_request t = do replace (status invalid_argument) (validate_final_payload t); ok t

-- parseDecodeOfferRequest
unfoldable pub parse_decode_offer_request : Bytes → Result Bytes
parse_decode_offer_request offer =
    if length offer == 0 then err (status invalid_argument) else ok offer

-- The loop over the map of final payloads.
unfoldable pub parse_final_payloads : List (ℕ × Bytes) → Result (List FinalHopPayload)
unfolding validate_final_payload
parse_final_payloads [] = ok []
parse_final_payloads ((t, v) ∷ entries) = do
  replace (status invalid_argument) (validate_final_payload t)
  payloads ← parse_final_payloads entries
  ok (record { tlv_type = t; value = v } ∷ payloads)

-- `parse` is btcec.ParsePubKey.
module _ (parse : Bytes → Result PubKey) where
  unfoldable pub parse_hops : List RpcHop → Result (List BlindedHop)
  parse_hops [] = ok []
  parse_hops (h ∷ hs) = do
    key ← replace (status invalid_argument) (parse h.blinded_node_id)
    hops ← parse_hops hs
    ok (record { blinded_node_id = key; encrypted_data = h.encrypted_data } ∷ hops)

  unfoldable pub parse_reply_path : Option RpcPath → Result (Option ReplyPath)
  unfolding parse_hops
  parse_reply_path none = ok none
  parse_reply_path (some p) = do
    intro ← replace (status invalid_argument) (parse p.introduction_node)
    blinding ← replace (status invalid_argument) (parse p.blinding_point)
    hops ← parse_hops p.hops
    ok (some (record { first_node_id = intro; blinding_point = blinding; hops = hops }))

  -- The switch of parseSendOnionMessageRequest on what is set.
  unfoldable pub parse_destination :
      Bytes → Option RpcPath → Result (Option PubKey × Option ReplyPath)
  unfolding parse_reply_path
  parse_destination pubkey none = do
    guard (not (length pubkey == 0)) (status invalid_argument)
    key ← replace (status invalid_argument) (parse pubkey)
    ok (some key, none)
  parse_destination pubkey (some p) = do
    guard (length pubkey == 0) (status invalid_argument)
    dest ← replace (status invalid_argument) (parse_reply_path (some p))
    ok (none, dest)

  unfoldable pub parse_send_request : RpcSendRequest → Result SendMessageRequest
  unfolding parse_destination parse_reply_path parse_final_payloads validate
  parse_send_request req = do
    (peer, blinded) ← parse_destination req.pubkey req.blinded_destination
    reply ← parse_reply_path req.reply_path
    payloads ← parse_final_payloads req.final_payloads
    let onion_req : SendMessageRequest =
        new_send_message_request peer blinded reply payloads req.direct_connect
    replace (status invalid_argument) (validate onion_req)
    ok onion_req

-- `hex` is hex.EncodeToString.
module _ (b : Bolt12) (hex : Bytes → Bytes) where
  unfoldable pub compose_features : Option (List ℕ) → Result Bytes
  compose_features none = ok []
  compose_features (some fs) = replace (status internal) (b.features_encode fs)

  abbrev pub compose_expiry : Option ℕ → ℕ
  compose_expiry none = 0
  compose_expiry (some s) = s

  abbrev pub compose_node_id : Option PubKey → Bytes
  compose_node_id none = []
  compose_node_id (some k) = hex (b.serialize_pub_key k)

  abbrev pub compose_signature : Option Bytes → Bytes
  compose_signature none = []
  compose_signature (some s) = hex s

  -- composeDecodeOfferResponse
  unfoldable pub compose_offer : Offer → Result RpcOffer
  unfolding compose_features
  compose_offer offer = do
    features ← compose_features offer.features
    ok (record {
      min_amount_msat = offer.minimum_amount;
      description = offer.description;
      features = features;
      expiry_unix_seconds = compose_expiry offer.expiry;
      issuer = offer.issuer;
      min_quantity = offer.quantity_min;
      max_quantity = offer.quantity_max;
      node_id = compose_node_id offer.node_id;
      signature = compose_signature offer.signature;
    })
