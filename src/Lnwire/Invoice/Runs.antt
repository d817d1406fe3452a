-- ===== src/Lnwire/Invoice/Runs.antt =====
-- Runs of lnwire/bolt12_invoice.go on an invoice with every field.
use boltnd.Prelude.{◌≡◌, ◌↔◌, refl, some, List, [], ◌∷◌, ◌++◌, Bytes, arith}
use boltnd.Prelude.Bytes.{codes, bytes_eq}
use boltnd.Prelude.Errors.{ok}
use boltnd.Lnwire.Tlv.{Record}
use boltnd.Lnwire.Merkle.{
  encode_tlv, is_signature_tlv, branch_hash, merkle_root, order_nodes, is_greater, compare_bytes,
  encode_records, create_leaf_pair, create_tlv_leaves, leaf_pairs, create_tlv_branches,
  branch_pairs, leaf_hash, branch_of, calculate_root, root_loop,
}
use boltnd.Lnwire.Payload.{bytes_record}
use boltnd.Lnwire.Bolt12.{
  copy_into, zero_hash, gather, hash_field, text_field, signature_field, tu64_field,
  encode_features_record, root_of_records, encode_records_stream, validate_signature,
  validate_optional, signature_digest,
}
use boltnd.Lnwire.Offer.{node_id_of}
use boltnd.Lnwire.Invoice.{
  Invoice, is_zero_time, uint64_field, created_field, expiry_field, key_field, invoice_fields,
  invoice_records, validate_invoice, encode_invoice, decode_invoice,
}
use boltnd.Lnwire.Invoice.Valid.{IsValid, validate_invoice-IsValid}
use boltnd.Lnwire.Invoice.RoundTrip.{IsEncodable, HasRoot, decode-encode_invoice}
use boltnd.Lnwire.Sample.Messages.{bytes32, messages, messages-Reads}

abbrev bill : Invoice
unfolding copy_into
bill = record {
  chainhash = bytes32 1;
  offer_id = bytes32 90;
  amount = 15;
  description = codes "tea";
  features = some (3 ∷ []);
  node_id = some (2 ∷ bytes32 50);
  quantity = 3;
  payer_key = some (2 ∷ bytes32 60);
  payer_note = codes "hi";
  created_at = some 1000;
  payment_hash = bytes32 70;
  relative_expiry = 7200000000000;
  cltv_expiry = 40;
  payer_info = 1 ∷ 2 ∷ [];
  signature = some (copy_into 64 (20 ∷ []));
  merkle_root = copy_into 32 (90 ∷ []);
}

bill-IsEncodable : IsEncodable bill (3 ∷ [])
unfolding bill copy_into
bill-IsEncodable = record {
  chainhash = refl;
  offer_id = refl;
  amount = omega arith;
  features = refl;
  feature_bits = omega arith;
  quantity = omega arith;
  created_at = (omega arith, λ e. omega arith);
  payment_hash = refl;
  relative_expiry = (7200, omega arith, omega arith);
  cltv_expiry = omega arith;
  signature = refl;
  merkle_root = refl;
}

abbrev bill_records : List Record
unfolding bill copy_into zero_hash gather hash_field text_field signature_field tu64_field
    encode_features_record root_of_records invoice_fields invoice_records uint64_field created_field
    expiry_field key_field merkle_root encode_tlv is_signature_tlv create_tlv_leaves encode_records
    leaf_pairs create_leaf_pair create_tlv_branches branch_pairs leaf_hash branch_of order_nodes
    is_greater compare_bytes calculate_root root_loop branch_hash bytes_eq
bill_records = gather (invoice_fields messages bill (some (bytes_record 12 (3 ∷ []))))

bill-HasRoot : HasRoot messages bill
unfolding bill bill_records copy_into zero_hash gather hash_field text_field signature_field
    tu64_field encode_features_record root_of_records invoice_fields invoice_records uint64_field
    created_field expiry_field key_field merkle_root encode_tlv is_signature_tlv create_tlv_leaves
    encode_records leaf_pairs create_leaf_pair create_tlv_branches branch_pairs leaf_hash branch_of
    order_nodes is_greater compare_bytes calculate_root root_loop branch_hash bytes_eq
bill-HasRoot = (bill_records, refl, refl)

abbrev bill_bytes : Bytes
unfolding copy_into
bill_bytes =
    3 ∷ 32 ∷ bytes32 1
    ++ 4 ∷ 32 ∷ bytes32 90
    ++ 8 ∷ 1 ∷ 15 ∷ 10 ∷ 3 ∷ codes "tea"
    ++ 12 ∷ 1 ∷ 3 ∷ 30 ∷ 33 ∷ 2 ∷ bytes32 50
    ++ 32 ∷ 1 ∷ 3 ∷ 38 ∷ 33 ∷ 2 ∷ bytes32 60
    ++ 39 ∷ 2 ∷ codes "hi"
    ++ 40 ∷ 8 ∷ copy_into 8 (1000 ∷ [])
    ++ 42 ∷ 32 ∷ bytes32 70
    ++ 44 ∷ 8 ∷ copy_into 8 (7200 ∷ [])
    ++ 46 ∷ 8 ∷ copy_into 8 (40 ∷ [])
    ++ 50 ∷ 2 ∷ 1 ∷ 2 ∷ 240 ∷ 64 ∷ copy_into 64 (20 ∷ [])

bill_encoded : encode_invoice messages bill ≡ ok bill_bytes
unfolding bill bill_bytes encode_invoice encode_records_stream copy_into zero_hash gather hash_field
    text_field signature_field tu64_field encode_features_record root_of_records invoice_fields
    invoice_records uint64_field created_field expiry_field key_field merkle_root encode_tlv
    is_signature_tlv create_tlv_leaves encode_records leaf_pairs create_leaf_pair
    create_tlv_branches branch_pairs leaf_hash branch_of order_nodes is_greater compare_bytes
    calculate_root root_loop branch_hash bytes_eq
bill_encoded = refl

decode-encode_invoice_example : decode_invoice messages bill_bytes ≡ ok bill
decode-encode_invoice_example =
    decode-encode_invoice messages messages-Reads bill (3 ∷ []) bill-IsEncodable bill_bytes
      bill-HasRoot bill_encoded

validate_invoice-IsValid_example : (validate_invoice messages bill ≡ ok tt) ↔ IsValid messages bill
validate_invoice-IsValid_example = validate_invoice-IsValid messages bill

bill_accepted : validate_invoice messages bill ≡ ok tt
unfolding bill copy_into zero_hash validate_invoice is_zero_time node_id_of signature_digest
    validate_optional validate_signature bytes_eq
bill_accepted = refl
