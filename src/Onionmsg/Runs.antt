-- ===== src/Onionmsg/Runs.antt =====
-- Runs of the event loop's work on one message: one that the node relays, one from another node's SendMessage.
use boltnd.Prelude.{suc, true, none, List}
use boltnd.Prelude.Errors.{Result, err, foreign}
use boltnd.Prelude.{ℕ, ◌≡◌, refl, some, [], ◌∷◌, ◌++◌, Bytes}
use boltnd.Prelude.Errors.{ok}
use boltnd.Lnwire.Tlv.{PubKey}
use boltnd.Lnwire.Payload.{
  OnionMessagePayload, BlindedRouteData, decode_onion_message_payload, decode_path_value,
  final_payloads, unknown_payloads, known_payload, is_known, bytes_or_nil, sort_payloads,
  insert_payload, find_value, decode_blinded_route_data, decode_key, encode_onion_message,
  decode_onion_message,
}
use boltnd.Lnwire.Sample.{sample, key}
use boltnd.Lnwire.Sample.Laws.{sample-ReadsBack}
use boltnd.Routes.{OnionHop, Packet, Sphinx}
use boltnd.Onionmsg.EndToEnd.{exiting}
use boltnd.Onionmsg.Handlers.{
  ProcessedPacket, more_hops, forward, at_more_hops, by_action, handle_onion_message,
}
use boltnd.Onionmsg.Request.{SendMessageRequest, Node, CustomMessage, decrypt_blob}
use boltnd.Onionmsg.Send.{process_onion, forward_message, forward_to, overridden}
use boltnd.Onionmsg.Send.Forwarding.{Forwards}
use boltnd.Onionmsg.Send.Runs.{node, sphinx, sized-length}
use boltnd.Onionmsg.Relayed.{messenger_kit, handle_message, IsRelay, handle_message-Forwards}

-- The payload: encrypted data, which the small node reads as they are, with the key of the next node.
abbrev relay_payload : Bytes
relay_payload = 4 ∷ 35 ∷ 4 ∷ 33 ∷ key 4

abbrev packet : ProcessedPacket
packet = record { action = more_hops; payload = relay_payload; next_packet = some (1 ∷ 2 ∷ []) }

abbrev relaying : Node ℕ
relaying = record node { process_onion_packet = λ p k n. (ok packet, n) }

abbrev message : Bytes
message = key 5 ++ (0 ∷ 1 ∷ 9 ∷ [])

peeled : process_onion sample sphinx relaying message 0 ≡ (ok (key 5, packet), 0)
unfolding process_onion decode_onion_message
peeled = refl

relayed : handle_message sample sphinx relaying [] message 0 ≡ (ok tt, 1)
unfolding handle_message messenger_kit handle_onion_message process_onion decode_onion_message
    decode_onion_message_payload decode_path_value final_payloads unknown_payloads known_payload
    is_known bytes_or_nil sort_payloads insert_payload find_value by_action at_more_hops forward
    decrypt_blob decode_blinded_route_data decode_key forward_message forward_to overridden
    encode_onion_message
relayed = refl

handle_message-Forwards_example :
    (payload : OnionMessagePayload) × (next : Packet) × (route_data : BlindedRouteData)
    × (next_node : PubKey) × (msg : CustomMessage) × (ephemeral : PubKey) × (blob : Bytes)
    × (IsRelay sample sphinx relaying (key 5) packet payload next route_data)
    × (route_data.next_node_id ≡ some next_node)
    × (relaying.next_ephemeral (key 5) ≡ ok ephemeral)
    × (sphinx.packet_encode next ≡ ok blob)
    × (Forwards sample sphinx relaying msg next_node route_data ephemeral blob)
    × (relaying.send_custom_message msg 0 ≡ (ok tt, 1))
handle_message-Forwards_example =
    handle_message-Forwards sample sphinx relaying sample-ReadsBack sized-length [] message (key 5)
      packet 0 1 0 peeled refl relayed

-- An onion that is the payload of its first hop, and a router that counts what it opens.
abbrev first_payload : List OnionHop → Result Packet
first_payload [] = err (foreign 8)
first_payload (hop ∷ hops) = ok hop.payload

abbrev bare : Sphinx
bare = record sphinx { new_onion_packet = λ path k. first_payload path }

abbrev receiver : Node ℕ
receiver = record node { process_onion_packet = λ p k n. (ok (exiting p), suc n) }

abbrev greeting : SendMessageRequest
greeting = record {
  peer = some (key 3);
  blinded_destination = none;
  reply_path = none;
  final_payloads = record { tlv_type = 101; value = 5 ∷ [] } ∷ [];
  direct_connect = true;
}
