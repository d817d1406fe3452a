-- ===== src/Lnwire/Offer/Sample.antt =====
-- An offer with every field, its encoding and its merkle root, for runs.
use boltnd.Prelude.{◌≡◌, refl, some, List, [], ◌∷◌, ◌++◌, Bytes, arith}
use boltnd.Prelude.Bytes.{codes, bytes_eq}
use boltnd.Prelude.Errors.{ok}
use boltnd.Lnwire.Tlv.{Record}
use boltnd.Lnwire.Merkle.{
  encode_tlv, is_signature_tlv, branch_hash, merkle_root, order_nodes, is_greater, compare_bytes,
  encode_records, create_leaf_pair, create_tlv_leaves, leaf_pairs, create_tlv_branches,
  branch_pairs, leaf_hash, branch_of, calculate_root, root_loop,
}
use boltnd.Lnwire.Payload.{bytes_record}
use boltnd.Lnwire.Bolt12.{
  copy_into, zero_hash, gather, hash_field, text_field, signature_field, tu64_field, time_field,
  x_only_field, encode_features_record, root_of_records, encode_records_stream, validate_signature,
  validate_optional, signature_digest,
}
use boltnd.Lnwire.Offer.{
  Offer, node_id_of, offer_fields, offer_records, validate_offer, encode_offer,
}
use boltnd.Lnwire.Offer.RoundTrip.{IsEncodable, HasRoot}
use boltnd.Lnwire.Sample.Messages.{bytes32, messages}

abbrev pub coffee : Offer
unfolding copy_into
coffee = record {
  chainhash = bytes32 1;
  minimum_amount = 5;
  description = codes "coffee";
  features = some (3 ∷ 9 ∷ []);
  expiry = some 77;
  issuer = codes "bar";
  quantity_min = 1;
  quantity_max = 4;
  node_id = some (2 ∷ bytes32 50);
  signature = some (copy_into 64 (73 ∷ []));
  merkle_root = copy_into 32 (111 ∷ []);
}

pub coffee-IsEncodable : IsEncodable messages coffee (3 ∷ 9 ∷ [])
unfolding coffee copy_into
coffee-IsEncodable = record {
  chainhash = refl;
  minimum_amount = omega arith;
  features = refl;
  feature_bits = omega arith;
  expiry = (omega arith, omega arith, λ e. omega arith);
  quantity_min = omega arith;
  quantity_max = omega arith;
  node_id = refl;
  signature = refl;
  merkle_root = refl;
}

abbrev pub coffee_records : List Record
unfolding coffee copy_into zero_hash gather hash_field text_field signature_field tu64_field
    time_field x_only_field encode_features_record root_of_records offer_fields offer_records
    merkle_root encode_tlv is_signature_tlv create_tlv_leaves encode_records leaf_pairs
    create_leaf_pair create_tlv_branches branch_pairs leaf_hash branch_of order_nodes is_greater
    compare_bytes calculate_root root_loop branch_hash bytes_eq
coffee_records = gather (offer_fields messages coffee (some (bytes_record 12 (3 ∷ 9 ∷ []))))

pub coffee-HasRoot : HasRoot messages coffee
unfolding coffee coffee_records copy_into zero_hash gather hash_field text_field signature_field
    tu64_field time_field x_only_field encode_features_record root_of_records offer_fields
    offer_records merkle_root encode_tlv is_signature_tlv create_tlv_leaves encode_records
    leaf_pairs create_leaf_pair create_tlv_branches branch_pairs leaf_hash branch_of order_nodes
    is_greater compare_bytes calculate_root root_loop branch_hash bytes_eq
coffee-HasRoot = (coffee_records, refl, refl)

abbrev pub coffee_bytes : Bytes
unfolding copy_into
coffee_bytes =
    2 ∷ 32 ∷ bytes32 1
    ++ 8 ∷ 1 ∷ 5 ∷ 10 ∷ 6 ∷ codes "coffee"
    ++ 12 ∷ 2 ∷ 3 ∷ 9 ∷ 14 ∷ 1 ∷ 77 ∷ 20 ∷ 3 ∷ codes "bar"
    ++ 22 ∷ 1 ∷ 1 ∷ 24 ∷ 1 ∷ 4 ∷ 30 ∷ 32 ∷ bytes32 50
    ++ 240 ∷ 64 ∷ copy_into 64 (73 ∷ [])

pub coffee_encoded : encode_offer messages coffee ≡ ok coffee_bytes
unfolding coffee coffee_bytes encode_offer encode_records_stream copy_into zero_hash gather
    hash_field text_field signature_field tu64_field time_field x_only_field encode_features_record
    root_of_records offer_fields offer_records merkle_root encode_tlv is_signature_tlv
    create_tlv_leaves encode_records leaf_pairs create_leaf_pair create_tlv_branches branch_pairs
    leaf_hash branch_of order_nodes is_greater compare_bytes calculate_root root_loop branch_hash
    bytes_eq
coffee_encoded = refl

pub coffee_accepted : validate_offer messages coffee ≡ ok tt
unfolding coffee copy_into validate_offer node_id_of signature_digest validate_optional
    validate_signature bytes_eq
coffee_accepted = refl
