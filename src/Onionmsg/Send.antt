-- ===== src/Onionmsg/Send.antt =====
-- onionmsg/messenger.go: the messages that the messenger sends and forwards, and the onion that it
-- takes off a message.
pub mod Forwarding
pub mod Connect
pub mod Destination
pub mod Runs
use boltnd.Prelude.{
  ℕ, zero, suc, Bool, true, false, not, Option, none, some, List, [], ◌∷◌, length, ◌==◌, Bytes,
  if◌then◌else◌,
}
use boltnd.Prelude.Errors.{
  Error, Result, ok, err, panic, wrapped, text, no_path, no_addresses, no_connection,
  no_next_node_id, bad_message, bad_onion_blob, wrap, replace,
}
use boltnd.Prelude.Exec.{Exec, pure, raise, lift, wrapping, replacing, ◌>>=◌, ◌>>◌}
use boltnd.Lnwire.Tlv.{PubKey, Tlv}
use boltnd.Lnwire.Payload.{
  OnionMessage, BlindedRouteData, onion_message_type, encode_onion_message, decode_onion_message,
}
use boltnd.Routes.{PrivKey, Packet, Sphinx, BlindedRouteRequest, create_blinded_route}
use boltnd.Onionmsg.Handlers.{ProcessedPacket}
use boltnd.Onionmsg.Request.{
  SendMessageRequest, Node, CustomMessage, target_peer, has_peer, path_of_route,
  custom_onion_message, query_routes_request,
}

abbrev halt : {S A : Type 0} → Exec S A
halt s = (panic, s)

-- The key for the next node is the override, where the data has one.
unfoldable pub overridden : PubKey → Option PubKey → PubKey
overridden next_blinding none = next_blinding
overridden next_blinding (some k) = k

abbrev pub next_message : BlindedRouteData → PubKey → Bytes → OnionMessage
next_message route_data ephemeral blob = record {
  blinding_point = overridden ephemeral route_data.next_blinding_override;
  onion_blob = blob;
}

-- routes.NewBlindedRouteRequest, as SendMessage calls it.
abbrev pub along : SendMessageRequest → PrivKey → PrivKey → List PubKey → BlindedRouteRequest
along req session_key blinding_key path = record {
  session_key = some session_key;
  blinding_key = some blinding_key;
  hops = path;
  reply_path = req.reply_path;
  blinded_destination = req.blinded_destination;
  final_payloads = req.final_payloads;
}

module _ {S : Type 0} (tlv : Tlv) (sphinx : Sphinx) (node : Node S) where
  unfoldable pub find_peer : PubKey → Exec S Bool
  unfolding has_peer
  find_peer peer = do peers ← wrapping node.list_peers; pure (has_peer peer peers)

  unfoldable pub wait_and_try : Exec S (Unit {0}) → Exec S (Unit {0})
  wait_and_try again = do more ← node.wait; if more then again else raise node.context_error

  -- The loop of lookupAndConnect, with the attempts that are left.
  unfoldable pub attempts : ℕ → PubKey → Exec S (Unit {0})
  unfolding find_peer wait_and_try
  attempts zero peer = raise no_connection
  attempts (suc n) peer = do
    is_peer ← replacing text (find_peer peer)
    if is_peer then pure tt else wait_and_try (attempts n peer)

  unfoldable pub first_address : List Bytes → Exec S Bytes
  first_address [] = raise (wrapped no_addresses)
  first_address (a ∷ addresses) = pure a

  unfoldable pub connect_and_wait : ℕ → PubKey → Exec S (Unit {0})
  unfolding first_address attempts
  connect_and_wait lookup_peer_attempts peer = do
    addresses ← wrapping (node.addresses peer)
    address ← first_address addresses
    wrapping (node.connect peer address)
    attempts lookup_peer_attempts peer

  unfoldable pub lookup_and_connect : ℕ → PubKey → Exec S (Unit {0})
  unfolding find_peer connect_and_wait
  lookup_and_connect lookup_peer_attempts peer = do
    is_peer ← wrapping (find_peer peer)
    if is_peer then pure tt else connect_and_wait lookup_peer_attempts peer

  -- An error of QueryRoutes is wrapped, those of the keys come back as they are.
  unfoldable pub multi_hop_path : PubKey → Exec S (List PubKey)
  unfolding path_of_route
  multi_hop_path peer = do
    route ← wrapping (node.query_routes (query_routes_request node.max_milli_satoshi peer))
    lift (path_of_route node.parse_pub_key route)

  -- The path of SendMessage. A nil target is read as soon as there is a key to compare it with.
  unfoldable pub send_path : ℕ → Option PubKey → Bool → Exec S (List PubKey)
  unfolding lookup_and_connect multi_hop_path
  send_path lookup_peer_attempts none true = wrapping (wrapping node.list_peers) >>= λ _. halt
  send_path lookup_peer_attempts none false = halt
  send_path lookup_peer_attempts (some target) true = do
    wrapping (lookup_and_connect lookup_peer_attempts target)
    pure (target ∷ [])
  send_path lookup_peer_attempts (some target) false = wrapping (multi_hop_path target)

  -- The rest of SendMessage, on a path that has hops.
  unfoldable pub send_along :
      SendMessageRequest → PrivKey → PrivKey → List PubKey → Exec S (Unit {0})
  unfolding create_blinded_route custom_onion_message
  send_along req session_key blinding_key path = do
    response ←
        lift (wrap (create_blinded_route tlv sphinx (along req session_key blinding_key path)))
    msg ← lift (wrap (custom_onion_message tlv response.first_node response.onion_message))
    node.send_custom_message msg

  unfoldable pub send_message : ℕ → SendMessageRequest → Exec S (Unit {0})
  unfolding target_peer send_path send_along
  send_message lookup_peer_attempts req = do
    session_key ← wrapping node.new_private_key
    blinding_key ← wrapping node.new_private_key
    path ← send_path lookup_peer_attempts (target_peer req) req.direct_connect
    elim path [
      | [] ↦ raise (wrapped no_path)
      | hop ∷ hops ↦ send_along req session_key blinding_key (hop ∷ hops)
    ]

  -- processOnion, on the data of a message.
  unfoldable pub process_onion : Bytes → Exec S (PubKey × ProcessedPacket)
  unfolding decode_onion_message
  process_onion bytes = do
    msg ← lift (replace (wrapped bad_message) (decode_onion_message tlv bytes))
    packet ← lift (replace (wrapped bad_onion_blob) (node.packet_decode msg.onion_blob))
    processed ← wrapping (node.process_onion_packet packet msg.blinding_point)
    pure (msg.blinding_point, processed)

  unfoldable pub forward_to : PubKey → BlindedRouteData → PubKey → Packet → Exec S (Unit {0})
  unfolding overridden encode_onion_message
  forward_to next_node route_data blinding_point packet = do
    ephemeral ← lift (wrap (node.next_ephemeral blinding_point))
    blob ← lift (wrap (sphinx.packet_encode packet))
    bytes ← lift (wrap (encode_onion_message tlv (next_message route_data ephemeral blob)))
    wrapping (
        node.send_custom_message
          (record { peer = next_node; msg_type = onion_message_type; payload = bytes }))

  unfoldable pub forward_message : BlindedRouteData → PubKey → Packet → Exec S (Unit {0})
  unfolding forward_to
  forward_message route_data blinding_point packet = elim route_data.next_node_id [
    | none ↦ raise no_next_node_id
    | some next_node ↦ forward_to next_node route_data blinding_point packet
  ]
