-- ===== src/Onionmsg/Request.antt =====
-- onionmsg/messenger.go and onionmsg/onion.go: the request to send a message, what the messenger asks
-- of lnd and its router, and the steps that change no state.
use boltnd.Prelude.{
  ℕ, Bool, true, false, not, ◌&&◌, ◌||◌, Option, none, some, List, [], ◌∷◌, length, ◌==◌, Bytes,
  if◌then◌else◌,
}
use boltnd.Prelude.Bytes.{bytes_eq}
use boltnd.Prelude.Errors.{
  Error, Result, ok, err, both_dest, no_dest, no_blinded_hops, nil_pubkey_in_route,
  no_encrypted_data, wrap, guard, ◌>>=◌, ◌>>◌,
}
use boltnd.Prelude.Exec.{Exec}
use boltnd.Lnwire.Tlv.{PubKey, Tlv}
use boltnd.Lnwire.ReplyPath.{ReplyPath}
use boltnd.Lnwire.Payload.{
  FinalHopPayload, OnionMessagePayload, OnionMessage, BlindedRouteData, onion_message_type,
  encode_onion_message, decode_blinded_route_data,
}
use boltnd.Routes.{PrivKey, Packet, is_some}
use boltnd.Onionmsg.Handlers.{ProcessedPacket}

pub record SendMessageRequest : Type 0 where
  pub peer : Option PubKey
  pub blinded_destination : Option ReplyPath
  pub reply_path : Option ReplyPath
  pub final_payloads : List FinalHopPayload
  pub direct_connect : Bool

-- NewSendMessageRequest
abbrev pub new_send_message_request :
    Option PubKey
    → Option ReplyPath
    → Option ReplyPath
    → List FinalHopPayload
    → Bool
    → SendMessageRequest
new_send_message_request destination blinded_destination reply_path final_payloads direct_connect =
    record {
      peer = destination;
      blinded_destination = blinded_destination;
      reply_path = reply_path;
      final_payloads = final_payloads;
      direct_connect = direct_connect;
    }

-- The key may be nil.
unfoldable pub target_of : Option PubKey → Option ReplyPath → Option PubKey
target_of peer none = peer
target_of peer (some p) = some p.first_node_id

unfoldable pub target_peer : SendMessageRequest → Option PubKey
unfolding target_of
target_peer s = target_of s.peer s.blinded_destination

unfoldable pub blinded_hop_count : Option ReplyPath → ℕ
blinded_hop_count none = 0
blinded_hop_count (some p) = length p.hops

unfoldable pub validate : SendMessageRequest → Result (Unit {0})
unfolding blinded_hop_count
validate s = do
  guard (not (is_some s.peer && is_some s.blinded_destination)) both_dest
  guard (is_some s.peer || is_some s.blinded_destination) no_dest
  guard (not (is_some s.blinded_destination && (blinded_hop_count s.blinded_destination == 0)))
      no_blinded_hops

-- lndclient.CustomMessage
pub record CustomMessage : Type 0 where
  pub peer : PubKey
  pub msg_type : ℕ
  pub payload : Bytes

-- lndclient.QueryRoutesRequest, by the fields that the program sets.
pub record QueryRoutesRequest : Type 0 where
  pub pub_key : PubKey
  pub use_mission_control : Bool
  pub amt_msat : ℕ
  pub fee_limit_msat : ℕ

-- queryRoutesRequest, with lnd's MaxMilliSatoshi.
abbrev pub query_routes_request : ℕ → PubKey → QueryRoutesRequest
query_routes_request max_milli_satoshi peer = record {
  pub_key = peer;
  use_mission_control = false;
  amt_msat = 1000;
  fee_limit_msat = max_milli_satoshi;
}

-- What the messenger asks of lnd and of its router, in a world `S` that the calls change.
pub record Node (S : Type 0) : Type 0 where
  pub new_private_key : Exec S PrivKey
  pub list_peers : Exec S (List Bytes)
  -- GetNodeInfo's addresses, Connect, and the wait between attempts: false when the context is done
  pub addresses : PubKey → Exec S (List Bytes)
  pub connect : PubKey → Bytes → Exec S (Unit {0})
  pub wait : Exec S Bool
  pub context_error : Error
  -- QueryRoutes: none is ErrNoRouteFound; a hop's key may be nil
  pub query_routes : QueryRoutesRequest → Exec S (Option (List (Option Bytes)))
  pub max_milli_satoshi : ℕ
  pub parse_pub_key : Bytes → Result PubKey
  pub send_custom_message : CustomMessage → Exec S (Unit {0})
  -- OnionPacket.Decode, ProcessOnionPacket with no associated data and the blinding point
  pub packet_decode : Bytes → Result Packet
  pub process_onion_packet : Packet → PubKey → Exec S ProcessedPacket
  -- NextEphemeral and DecryptBlindedData with the node's key
  pub next_ephemeral : PubKey → Result PubKey
  pub decrypt_blinded_data : PubKey → Bytes → Result Bytes

-- The loop of findPeer.
unfoldable pub has_peer : PubKey → List Bytes → Bool
has_peer peer [] = false
has_peer peer (k ∷ ks) = let rest = has_peer peer ks in if bytes_eq k peer then true else rest

-- The loop of multiHopPath over the hops of the route.
unfoldable pub path_keys : (Bytes → Result PubKey) → List (Option Bytes) → Result (List PubKey)
path_keys parse [] = ok []
path_keys parse (none ∷ hops) = err nil_pubkey_in_route
path_keys parse (some k ∷ hops) = do
  key ← wrap (parse k)
  keys ← path_keys parse hops
  ok (key ∷ keys)

unfoldable pub path_of_route :
    (Bytes → Result PubKey) → Option (List (Option Bytes)) → Result (List PubKey)
unfolding path_keys
path_of_route parse none = ok []
path_of_route parse (some hops) = path_keys parse hops

module _ (tlv : Tlv) where
  unfoldable pub custom_onion_message : PubKey → OnionMessage → Result CustomMessage
  unfolding encode_onion_message
  custom_onion_message peer msg = do
    bytes ← wrap (encode_onion_message tlv msg)
    ok (record { peer = peer; msg_type = onion_message_type; payload = bytes })

  -- The closure that decryptBlobFunc returns, on a payload that is not nil.
  unfoldable pub decrypt_blob :
      (PubKey → Bytes → Result Bytes) → PubKey → OnionMessagePayload → Result BlindedRouteData
  unfolding decode_blinded_route_data
  decrypt_blob decrypt blinding_point payload = do
    guard (not (length payload.encrypted_data == 0)) no_encrypted_data
    decrypted ← wrap (decrypt blinding_point payload.encrypted_data)
    wrap (decode_blinded_route_data tlv decrypted)
