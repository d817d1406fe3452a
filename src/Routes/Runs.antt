-- ===== src/Routes/Runs.antt =====
-- Runs of the blinded routes, with packets that are the payloads of their hops.
use boltnd.Prelude.{
  ℕ, ◌<◌, ◌≡◌, refl, Bool, true, false, none, some, List, [], ◌∷◌, ◌++◌, map, All, Bytes, arith,
  if◌then◌else◌, ◌==◌,
}
use boltnd.Prelude.Bytes.{bytes_eq}
use boltnd.Prelude.Errors.{Result, ok, err, panic, foreign}
use boltnd.Lnwire.Tlv.{PubKey}
use boltnd.Lnwire.ReplyPath.{BlindedHop, ReplyPath}
use boltnd.Lnwire.Payload.{
  FinalHopPayload, encode_blinded_route_data, key_records, encode_onion_message_payload,
  reply_path_records, encrypted_data_records, final_records, validate_final_payload,
}
use boltnd.Lnwire.Sample.{sample, key}
use boltnd.Routes.{
  PathHop, BlindedPath, OnionHop, Sphinx, BlindedRouteRequest, validate, validate_destination,
  last_hop, path_from, switch_payload, create_path_to_blind, create_sphinx_hop, full_payload,
  put_hop, add_our_hops, add_extra_hops, blinded_to_sphinx, direct_hops, direct_to_blinded,
  create_blinded_route, BlindedRouteResponse, but_last, with_keys, route_to, route_along,
  blinded_start, blinded_hops, create_onion_message, encode_blinded_data,
}
use boltnd.Routes.Linked.{Linked, create_path_to_blind-Linked}
use boltnd.Routes.Hops.{Carries, our_entries, extra_entries, blinded_to_sphinx-Carries}
use boltnd.Routes.Direct.{
  direct_request, Encodable, IsDirect, create_blinded_route-IsDirect, direct_to_blinded-panic,
}
use boltnd.Routes.Relay.{
  NodeInfo, Lnd, check_features, relay_check, relaying_peer, relaying_peers, get_relaying_peers,
}
use boltnd.Routes.Relay.Peers.{CanRelay, get_relaying_peers-CanRelay}

abbrev first_node : List PathHop → PubKey
first_node [] = []
first_node (h ∷ hs) = h.node_pub

abbrev payloads : List OnionHop → Bytes
payloads [] = []
payloads (h ∷ hs) = h.payload ++ payloads hs

-- A path of at most two hops.
abbrev two_slots : Sphinx
two_slots = record {
  num_max_hops = 2;
  build_blinded_path = λ k hops. ok (record {
    introduction_point = first_node hops;
    blinding_point = key k;
    blinded_hops = map (λ (h : PathHop). h.node_pub) hops;
    encrypted_data = map (λ (h : PathHop). h.payload) hops;
  });
  new_onion_packet = λ path k. ok (payloads path);
  packet_encode = λ p. ok p;
  pub_key = key;
}

abbrev hop : ℕ → BlindedHop
hop n = record { blinded_node_id = key n; encrypted_data = n ∷ [] }

abbrev path_of : List BlindedHop → ReplyPath
path_of hops = record { first_node_id = key 2; blinding_point = key 3; hops = hops }

abbrev two_to_blind : List PathHop
two_to_blind =
    record { node_pub = key 1; payload = 4 ∷ 33 ∷ key 2 }
    ∷ record { node_pub = key 2; payload = [] }
    ∷ []

path_is_made :
    create_path_to_blind (key 1 ∷ key 2 ∷ []) none (encode_blinded_data sample) ≡ ok two_to_blind
unfolding create_path_to_blind path_from switch_payload encode_blinded_data
    encode_blinded_route_data key_records
path_is_made = refl

create_path_to_blind-Linked_example :
    Linked (encode_blinded_data sample) none (key 1) (key 2 ∷ []) two_to_blind
create_path_to_blind-Linked_example =
    create_path_to_blind-Linked (encode_blinded_data sample) none (key 1) (key 2 ∷ []) two_to_blind
      path_is_made

abbrev request : BlindedRouteRequest
request = record {
  session_key = some 7;
  blinding_key = some 8;
  hops = key 1 ∷ key 2 ∷ [];
  reply_path = none;
  blinded_destination = some (path_of (hop 4 ∷ []));
  final_payloads = [];
}

request_is_valid : validate request ≡ ok tt
unfolding validate validate_destination last_hop bytes_eq
request_is_valid = refl

-- The route of the request above: two hops of our own, the last of which is left out.
abbrev response : BlindedRouteResponse
response = record {
  onion_message = record {
    blinding_point = key 8;
    onion_blob = 4 ∷ 70 ∷ 4 ∷ 33 ∷ (key 2 ++ (8 ∷ 33 ∷ (key 3 ++ (4 ∷ 1 ∷ 4 ∷ []))));
  };
  first_node = key 1;
}

route_is_made : create_blinded_route sample two_slots request ≡ ok response
unfolding create_blinded_route validate validate_destination last_hop but_last bytes_eq with_keys
    route_to route_along blinded_start blinded_hops create_path_to_blind path_from switch_payload
    encode_blinded_data encode_blinded_route_data key_records blinded_to_sphinx add_our_hops
    add_extra_hops create_sphinx_hop put_hop encode_onion_message_payload reply_path_records
    encrypted_data_records final_records create_onion_message
route_is_made = refl

abbrev our_path : BlindedPath
our_path = record {
  introduction_point = key 1;
  blinding_point = key 8;
  blinded_hops = key 1 ∷ [];
  encrypted_data = (9 ∷ []) ∷ [];
}

abbrev final : FinalHopPayload
final = record { tlv_type = 101; value = 6 ∷ [] }

abbrev sphinx_path : List OnionHop
sphinx_path =
    record { node_pub = key 1; payload = 4 ∷ 1 ∷ 9 ∷ [] }
    ∷ record { node_pub = key 4; payload = 4 ∷ 1 ∷ 4 ∷ 101 ∷ 1 ∷ 6 ∷ [] }
    ∷ []

sphinx_path_is_made :
    blinded_to_sphinx sample two_slots our_path (hop 4 ∷ []) none (final ∷ []) ≡ ok sphinx_path
unfolding blinded_to_sphinx add_our_hops add_extra_hops create_sphinx_hop put_hop
    encode_onion_message_payload reply_path_records encrypted_data_records final_records
    validate_final_payload
sphinx_path_is_made = refl

blinded_to_sphinx-Carries_example :
    Carries sample two_slots
      (full_payload sample two_slots none (final ∷ []))
      (our_entries sample two_slots our_path.encrypted_data our_path.blinded_hops
        ++ extra_entries sample two_slots (hop 4 ∷ []))
      sphinx_path
blinded_to_sphinx-Carries_example =
    blinded_to_sphinx-Carries sample two_slots our_path (hop 4 ∷ []) none (final ∷ []) sphinx_path
      sphinx_path_is_made

-- The message straight to the introduction node, whose reply path and final payload are lost.
abbrev direct_response : BlindedRouteResponse
direct_response = record {
  onion_message = record {
    blinding_point = (path_of (hop 4 ∷ [])).blinding_point;
    onion_blob = 4 ∷ 1 ∷ 4 ∷ [];
  };
  first_node = (path_of (hop 4 ∷ [])).first_node_id;
}

direct_route_is_made :
    create_blinded_route sample two_slots
      (direct_request sample two_slots 7 8 (path_of (hop 4 ∷ [])) (some (path_of [])) (final ∷ []))
    ≡ ok direct_response
unfolding create_blinded_route validate validate_destination last_hop but_last bytes_eq with_keys
    route_to direct_to_blinded direct_hops create_sphinx_hop put_hop encode_onion_message_payload
    reply_path_records encrypted_data_records final_records create_onion_message
direct_route_is_made = refl

create_blinded_route-IsDirect_example :
    IsDirect sample two_slots 7 8 (path_of (hop 4 ∷ [])) direct_response
create_blinded_route-IsDirect_example =
    create_blinded_route-IsDirect sample two_slots 7 8 (path_of (hop 4 ∷ [])) (some (path_of []))
      (final ∷ []) direct_response direct_route_is_made

abbrev three_hops : ReplyPath
three_hops = path_of (hop 4 ∷ hop 5 ∷ hop 6 ∷ [])

hop-Encodable : (n : ℕ) → n < 253 → Encodable sample two_slots 7 8 three_hops (hop n)
unfolding create_sphinx_hop encode_onion_message_payload reply_path_records encrypted_data_records
    final_records
hop-Encodable n h = (_, refl)

direct_to_blinded-panic_example :
    direct_to_blinded sample two_slots
      (direct_request sample two_slots 7 8 three_hops none (final ∷ []))
    ≡ panic
direct_to_blinded-panic_example =
    direct_to_blinded-panic sample two_slots 7 8 three_hops none (final ∷ [])
      (
        hop-Encodable 4 (omega arith),
        (hop-Encodable 5 (omega arith), (hop-Encodable 6 (omega arith), tt)),
      )
      (omega arith)

-- Two channels, with a peer of one channel and no features and a peer of three channels.
abbrev info : ℕ → List ℕ → NodeInfo
info n features = record { channels = n; has_node = true; features = features; pub_key = key n }

abbrev node_of : Bytes → Result NodeInfo
node_of [] = err (foreign 1)
node_of (b ∷ bs) = if b == 1 then ok (info 1 []) else ok (info 3 (38 ∷ []))

abbrev has : List ℕ → ℕ → Bool
has [] f = false
has (g ∷ gs) f = let rest = has gs f in if g == f then true else rest

abbrev lnd : Lnd
lnd = record {
  list_channels = ok (key 1 ∷ key 3 ∷ []);
  get_node_info = node_of;
  is_required = λ f. true;
  is_set = has;
  parse_pub_key = λ b. ok b;
  new_private_key = ok 7;
}

peers_are_found : get_relaying_peers lnd (relay_check lnd (38 ∷ [])) ≡ ok (info 3 (38 ∷ []) ∷ [])
unfolding get_relaying_peers relaying_peers relaying_peer relay_check check_features
peers_are_found = refl

get_relaying_peers-CanRelay_example : All (CanRelay lnd (38 ∷ [])) (info 3 (38 ∷ []) ∷ [])
get_relaying_peers-CanRelay_example =
    get_relaying_peers-CanRelay lnd (38 ∷ []) (info 3 (38 ∷ []) ∷ []) peers_are_found
