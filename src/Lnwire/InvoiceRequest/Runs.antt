-- ===== src/Lnwire/InvoiceRequest/Runs.antt =====
-- Runs of lnwire/bolt12_invoice_request.go: a request for three of an offer's one to four items.
use boltnd.Prelude.{
  ℕ, ◌≡◌, ◌≢◌, ◌↔◌, inr, refl, Option, none, some, List, [], ◌∷◌, ◌++◌, Bytes, arith,
}
use boltnd.Prelude.Bytes.{codes, bytes_eq}
use boltnd.Prelude.Errors.{ok}
use boltnd.Lnwire.Tlv.{Record}
use boltnd.Lnwire.Merkle.{
  encode_tlv, is_signature_tlv, branch_hash, merkle_root, order_nodes, is_greater, compare_bytes,
  encode_records, create_leaf_pair, create_tlv_leaves, leaf_pairs, create_tlv_branches,
  branch_pairs, leaf_hash, branch_of, calculate_root, root_loop,
}
use boltnd.Lnwire.Payload.{bytes_record}
use boltnd.Lnwire.Bolt12.{
  copy_into, zero_hash, gather, hash_field, text_field, signature_field, tu64_field, x_only_field,
  encode_features_record, root_of_records, encode_records_stream, validate_signature,
  signature_digest,
}
use boltnd.Lnwire.Offer.{Offer}
use boltnd.Lnwire.InvoiceRequest.{
  InvoiceRequest, request_for, check_request, new_invoice_request, invoice_request_fields,
  invoice_request_records, validate_invoice_request, encode_invoice_request, decode_invoice_request,
  payer_key_of, signature_of,
}
use boltnd.Lnwire.InvoiceRequest.Valid.{IsValid, validate_invoice_request-IsValid}
use boltnd.Lnwire.InvoiceRequest.Quantity.{
  IsAllowed, new_invoice_request-IsAllowed, new_invoice_request-no_maximum,
}
use boltnd.Lnwire.InvoiceRequest.RoundTrip.{IsEncodable, HasRoot, decode-encode_invoice_request}
use boltnd.Lnwire.InvoiceRequest.Signing.{sign, new_invoice_request-signed}
use boltnd.Lnwire.Bolt12.Signed.{Signs}
use boltnd.Lnwire.Bolt12.Values.{length-copy_into}
use boltnd.Lnwire.Sample.Laws.{sort_records-Sorts}
use boltnd.Lnwire.InvoiceRequest.{invoice_request_digest}
use boltnd.Lnwire.Sample.Messages.{bytes32, messages, messages-Reads}

-- An offer of items that cost 5, with these bounds on the quantity.
abbrev offer : ℕ → ℕ → Offer
unfolding copy_into
offer low high = record {
  chainhash = bytes32 1;
  minimum_amount = 5;
  description = codes "tea";
  features = some (3 ∷ []);
  expiry = none;
  issuer = [];
  quantity_min = low;
  quantity_max = high;
  node_id = some (2 ∷ bytes32 50);
  signature = none;
  merkle_root = bytes32 90;
}

abbrev payer : Option Bytes
payer = some (2 ∷ bytes32 60)

abbrev request : InvoiceRequest
unfolding offer copy_into
request = record (request_for (offer 1 4) 15 3 payer (codes "hi")) {
  merkle_root = copy_into 32 (185 ∷ []);
}

abbrev signed : InvoiceRequest
unfolding offer copy_into request
signed = record request { signature = some (copy_into 64 (234 ∷ [])) }

abbrev request_records : List Record
unfolding request offer copy_into zero_hash gather hash_field text_field signature_field tu64_field
    x_only_field encode_features_record root_of_records invoice_request_fields
    invoice_request_records merkle_root encode_tlv is_signature_tlv create_tlv_leaves encode_records
    leaf_pairs create_leaf_pair create_tlv_branches branch_pairs leaf_hash branch_of order_nodes
    is_greater compare_bytes calculate_root root_loop branch_hash bytes_eq
request_records = gather (invoice_request_fields messages request (some (bytes_record 12 (3 ∷ []))))

abbrev signed_records : List Record
unfolding signed request offer copy_into zero_hash gather hash_field text_field signature_field
    tu64_field x_only_field encode_features_record root_of_records invoice_request_fields
    invoice_request_records merkle_root encode_tlv is_signature_tlv create_tlv_leaves encode_records
    leaf_pairs create_leaf_pair create_tlv_branches branch_pairs leaf_hash branch_of order_nodes
    is_greater compare_bytes calculate_root root_loop branch_hash bytes_eq
signed_records = gather (invoice_request_fields messages signed (some (bytes_record 12 (3 ∷ []))))

made : new_invoice_request messages (offer 1 4) 15 3 payer (codes "hi") ≡ ok request
unfolding request offer new_invoice_request check_request copy_into zero_hash gather hash_field
    text_field signature_field tu64_field x_only_field encode_features_record root_of_records
    invoice_request_fields invoice_request_records merkle_root encode_tlv is_signature_tlv
    create_tlv_leaves encode_records leaf_pairs create_leaf_pair create_tlv_branches branch_pairs
    leaf_hash branch_of order_nodes is_greater compare_bytes calculate_root root_loop branch_hash
    bytes_eq
made = refl

new_invoice_request-IsAllowed_example :
    IsAllowed (offer 1 4) 15 3
    × (request ≡ record (request_for (offer 1 4) 15 3 payer (codes "hi")) {
      merkle_root = request.merkle_root;
    })
    × HasRoot messages request
unfolding request offer
new_invoice_request-IsAllowed_example =
    new_invoice_request-IsAllowed messages (offer 1 4) 15 3 payer (codes "hi") request made

three_of_four-IsAllowed : IsAllowed (offer 1 4) 15 3
unfolding offer
three_of_four-IsAllowed =
    (omega arith, inr (λ e. omega arith, λ e. omega arith, omega arith, omega arith))

request_has_records :
    invoice_request_records messages (request_for (offer 1 4) 15 3 payer (codes "hi"))
    ≡ ok request_records
unfolding request request_records offer copy_into zero_hash gather hash_field text_field
    signature_field tu64_field x_only_field encode_features_record root_of_records
    invoice_request_fields invoice_request_records merkle_root encode_tlv is_signature_tlv
    create_tlv_leaves encode_records leaf_pairs create_leaf_pair create_tlv_branches branch_pairs
    leaf_hash branch_of order_nodes is_greater compare_bytes calculate_root root_loop branch_hash
    bytes_eq
request_has_records = refl

request_has_root : root_of_records messages request_records ≡ ok request.merkle_root
unfolding request request_records offer copy_into zero_hash gather hash_field text_field
    signature_field tu64_field x_only_field encode_features_record root_of_records
    invoice_request_fields invoice_request_records merkle_root encode_tlv is_signature_tlv
    create_tlv_leaves encode_records leaf_pairs create_leaf_pair create_tlv_branches branch_pairs
    leaf_hash branch_of order_nodes is_greater compare_bytes calculate_root root_loop branch_hash
    bytes_eq
request_has_root = refl

new_invoice_request-no_maximum_example :
    new_invoice_request messages (offer 1 0) 15 3 payer (codes "hi") ≢ ok request
unfolding offer
new_invoice_request-no_maximum_example =
    new_invoice_request-no_maximum messages (offer 1 0) 15 3 payer (codes "hi") (λ e. omega arith)
      refl request

validate_invoice_request-IsValid_example :
    (validate_invoice_request messages signed ≡ ok tt) ↔ IsValid messages signed
validate_invoice_request-IsValid_example = validate_invoice_request-IsValid messages signed

signed_accepted : validate_invoice_request messages signed ≡ ok tt
unfolding signed request offer copy_into zero_hash bytes_eq validate_invoice_request payer_key_of
    signature_of signature_digest validate_signature
signed_accepted = refl

signed-IsEncodable : IsEncodable messages signed (3 ∷ [])
unfolding signed request offer copy_into
signed-IsEncodable = record {
  chainhash = refl;
  offer_id = refl;
  amount = omega arith;
  features = refl;
  feature_bits = omega arith;
  quantity = omega arith;
  payer_key = refl;
  signature = refl;
  merkle_root = refl;
}

signed-HasRoot : HasRoot messages signed
unfolding signed request signed_records offer copy_into zero_hash gather hash_field text_field
    signature_field tu64_field x_only_field encode_features_record root_of_records
    invoice_request_fields invoice_request_records merkle_root encode_tlv is_signature_tlv
    create_tlv_leaves encode_records leaf_pairs create_leaf_pair create_tlv_branches branch_pairs
    leaf_hash branch_of order_nodes is_greater compare_bytes calculate_root root_loop branch_hash
    bytes_eq
signed-HasRoot = (signed_records, refl, refl)

abbrev signed_bytes : Bytes
unfolding copy_into
signed_bytes =
    3 ∷ 32 ∷ bytes32 1
    ++ 4 ∷ 32 ∷ bytes32 90
    ++ 8 ∷ 1 ∷ 15 ∷ 12 ∷ 1 ∷ 3 ∷ 32 ∷ 1 ∷ 3 ∷ 38 ∷ 32 ∷ bytes32 60
    ++ 39 ∷ 2 ∷ codes "hi"
    ++ 240 ∷ 64 ∷ copy_into 64 (234 ∷ [])

signed_encoded : encode_invoice_request messages signed ≡ ok signed_bytes
unfolding signed request signed_bytes offer encode_invoice_request encode_records_stream copy_into
    zero_hash gather hash_field text_field signature_field tu64_field x_only_field
    encode_features_record root_of_records invoice_request_fields invoice_request_records
    merkle_root encode_tlv is_signature_tlv create_tlv_leaves encode_records leaf_pairs
    create_leaf_pair create_tlv_branches branch_pairs leaf_hash branch_of order_nodes is_greater
    compare_bytes calculate_root root_loop branch_hash bytes_eq
signed_encoded = refl

decode-encode_invoice_request_example : decode_invoice_request messages signed_bytes ≡ ok signed
decode-encode_invoice_request_example =
    decode-encode_invoice_request messages messages-Reads signed (3 ∷ []) signed-IsEncodable
      signed_bytes signed-HasRoot signed_encoded

request-IsEncodable : IsEncodable messages request (3 ∷ [])
unfolding request offer copy_into
request-IsEncodable = record {
  chainhash = refl;
  offer_id = refl;
  amount = omega arith;
  features = refl;
  feature_bits = omega arith;
  quantity = omega arith;
  payer_key = refl;
  signature = tt;
  merkle_root = refl;
}

request-Signs :
    Signs messages
      (2 ∷ bytes32 60)
      (invoice_request_digest messages request)
      (copy_into 64 (234 ∷ []))
unfolding request offer copy_into invoice_request_digest signature_digest bytes_eq
request-Signs = (copy_into 64 (234 ∷ []), refl, refl)

nonzero : bytes32 90 ≢ zero_hash
unfolding zero_hash copy_into
nonzero e = cc

new_invoice_request-signed_example :
    (decode_invoice_request messages signed_bytes ≡ ok (sign (copy_into 64 (234 ∷ [])) request))
    × (validate_invoice_request messages (sign (copy_into 64 (234 ∷ [])) request) ≡ ok tt)
unfolding offer signed
new_invoice_request-signed_example =
    new_invoice_request-signed messages sort_records-Sorts messages-Reads (offer 1 4) 15 3
      (2 ∷ bytes32 60) (codes "hi") request (3 ∷ []) (copy_into 64 (234 ∷ [])) signed_bytes made
      request-IsEncodable nonzero (length-copy_into 64 (234 ∷ [])) request-Signs signed_encoded
