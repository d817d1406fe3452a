-- ===== src/Onionmsg/Send/Runs.antt =====
-- Runs of the messenger's sending on a small node, whose world counts: 0 before a connection is asked for.
use boltnd.Prelude.{
  ℕ, ◌^◌, ◌-◌, zero, suc, ◌<◌, ◌≡◌, refl, Bool, true, false, none, some, List, [], ◌∷◌, length,
  Bytes, arith, ltb, if◌then◌else◌,
}
use boltnd.Prelude.Bytes.{bytes_eq}
use boltnd.Prelude.Errors.{Result, ok, err, foreign, ok-injective}
use boltnd.Lnwire.Payload.{
  encode_onion_message_payload, reply_path_records, encrypted_data_records, final_records,
  validate_final_payload, BlindedRouteData, encode_onion_message,
}
use boltnd.Lnwire.Sample.{sample, key}
use boltnd.Routes.{
  create_blinded_route, validate, validate_destination, with_keys, route_to, route_along,
  blinded_start, blinded_hops, create_path_to_blind, path_from, switch_payload, blinded_to_sphinx,
  add_our_hops, add_extra_hops, create_sphinx_hop, put_hop, create_onion_message, Packet, Sphinx,
}
use boltnd.Onionmsg.Handlers.{exit_node}
use boltnd.Onionmsg.Request.{
  SendMessageRequest, target_peer, target_of, custom_onion_message, Node, has_peer,
}
use boltnd.Onionmsg.Send.{
  forward_message, forward_to, overridden, find_peer, wait_and_try, attempts, first_address,
  connect_and_wait, lookup_and_connect, send_path, send_along, send_message,
}
use boltnd.Onionmsg.Send.Connect.{Connected, lookup_and_connect-Connected}

abbrev pub sized : Packet → Result Bytes
sized p = if ltb (length p) 65536 then ok p else err (foreign 1)

abbrev pub sphinx : Sphinx
sphinx = record {
  num_max_hops = 2;
  build_blinded_path = λ k hops. ok (record {
    introduction_point = key 3;
    blinding_point = key k;
    blinded_hops = key 9 ∷ [];
    encrypted_data = (2 ∷ []) ∷ [];
  });
  new_onion_packet = λ path k. ok (length path ∷ []);
  packet_encode = sized;
  pub_key = key;
}

abbrev peers : ℕ → List Bytes
peers zero = []
peers (suc n) = key 3 ∷ []

abbrev pub node : Node ℕ
node = record {
  new_private_key = λ n. (ok 7, n);
  list_peers = λ n. (ok (peers n), n);
  addresses = λ k n. (ok ((1 ∷ []) ∷ []), n);
  connect = λ k a n. (ok tt, suc n);
  wait = λ n. (ok true, n);
  context_error = foreign 3;
  query_routes = λ query n. (ok none, n);
  max_milli_satoshi = 2 ^ 64 - 1;
  parse_pub_key = λ b. ok b;
  send_custom_message = λ msg n. (ok tt, suc n);
  packet_decode = λ b. ok b;
  process_onion_packet =
      λ p k n. (ok (record { action = exit_node; payload = p; next_packet = none }), n);
  next_ephemeral = λ k. ok k;
  decrypt_blinded_data = λ k b. ok b;
}

pub sized-length : (packet : Packet) (blob : Bytes) → sized packet ≡ ok blob → length blob < 65536
sized-length packet blob h = by_test (ltb (length packet) 65536) refl h
  where
    by_test :
        (b : Bool)
        → ltb (length packet) 65536 ≡ b
        → (if b then ok packet else err (foreign 1)) ≡ ok blob
        → length blob < 65536
    by_test true e h = rw (← ok-injective h) (ground (arith, e))
    by_test false e h = cc

abbrev to_next : BlindedRouteData
to_next = record { next_node_id = some (key 4); next_blinding_override = none }

forwarded : forward_message sample sphinx node to_next (key 5) (1 ∷ 2 ∷ []) 0 ≡ (ok tt, 1)
unfolding forward_message forward_to overridden encode_onion_message
forwarded = refl

connected : lookup_and_connect sample sphinx node 5 (key 3) 0 ≡ (ok tt, 1)
unfolding lookup_and_connect connect_and_wait first_address attempts wait_and_try find_peer has_peer
    bytes_eq
connected = refl

lookup_and_connect-Connected_example : Connected sample sphinx node (key 3) 1
lookup_and_connect-Connected_example =
    lookup_and_connect-Connected sample sphinx node 5 (key 3) 0 1 connected

abbrev direct : SendMessageRequest
direct = record {
  peer = some (key 3);
  blinded_destination = none;
  reply_path = none;
  final_payloads = record { tlv_type = 101; value = 5 ∷ [] } ∷ [];
  direct_connect = true;
}

to_key_3 : target_peer direct ≡ some (key 3)
unfolding target_peer target_of
to_key_3 = refl

sent : send_message sample sphinx node 5 direct 0 ≡ (ok tt, 2)
unfolding send_message target_peer target_of send_path send_along lookup_and_connect
    connect_and_wait first_address attempts wait_and_try find_peer has_peer bytes_eq
    custom_onion_message encode_onion_message create_blinded_route validate validate_destination
    with_keys route_to route_along blinded_start blinded_hops create_path_to_blind path_from
    switch_payload blinded_to_sphinx add_our_hops add_extra_hops create_sphinx_hop put_hop
    encode_onion_message_payload reply_path_records encrypted_data_records final_records
    validate_final_payload create_onion_message
sent = refl
