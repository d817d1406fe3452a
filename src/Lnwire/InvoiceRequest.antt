-- ===== src/Lnwire/InvoiceRequest.antt =====
-- lnwire/bolt12_invoice_request.go: requests for an invoice, how they are made from an offer, their
-- validation and their encoding.
pub mod Quantity
pub mod Valid
pub mod Signing
mod Runs
pub mod RoundTrip
use boltnd.Prelude.{
  ℕ, Bool, true, false, not, ◌&&◌, Option, none, some, List, [], ◌∷◌, length, ltb, ◌==◌, Bytes,
}
use boltnd.Prelude.Bytes.{bytes_eq}
use boltnd.Prelude.Errors.{
  Result, ok, err, wrap, replace, wrapped, text, offer_id_required, payer_key_required,
  signature_required, below_min_amount, outside_quantity_range, no_quantity, quantity_required,
  ◌>>=◌, ◌>>◌, guard,
}
use boltnd.Lnwire.Tlv.{PubKey, Record}
use boltnd.Lnwire.Payload.{find_value, bytes_or_nil}
use boltnd.Lnwire.Offer.{Offer}
use boltnd.Lnwire.Bolt12.{
  Bolt12, Features, zero_hash, gather, hash_field, text_field, signature_field, read_or,
  signature_if, tu64_field, decode_tu64, x_only_field, encode_features_record, root_of_records,
  decode_features_record, hash_if, x_only_if, decode_merkle_root, encode_records_stream,
  signature_digest, validate_signature, invoice_request_tag, signature_tag, copy_into,
}

abbrev pub inv_req_chain_type : ℕ
inv_req_chain_type = 3

abbrev pub inv_req_offer_id_type : ℕ
inv_req_offer_id_type = 4

abbrev pub inv_req_amount_type : ℕ
inv_req_amount_type = 8

abbrev pub inv_req_features_type : ℕ
inv_req_features_type = 12

abbrev pub inv_req_quantity_type : ℕ
inv_req_quantity_type = 32

abbrev pub inv_req_payer_key_type : ℕ
inv_req_payer_key_type = 38

abbrev pub inv_req_payer_note_type : ℕ
inv_req_payer_note_type = 39

abbrev pub inv_req_payer_info_type : ℕ
inv_req_payer_info_type = 50

abbrev pub inv_req_signature_type : ℕ
inv_req_signature_type = 240

pub record InvoiceRequest : Type 0 where
  pub chainhash : Bytes
  pub offer_id : Bytes
  pub amount : ℕ
  pub features : Option Features
  pub quantity : ℕ
  pub payer_key : Option PubKey
  pub payer_note : Bytes
  pub payer_info : Bytes
  pub signature : Option Bytes
  pub merkle_root : Bytes

-- The types of the records that an invoice request is decoded with.
abbrev pub invoice_request_types : List ℕ
invoice_request_types =
    inv_req_chain_type ∷ inv_req_offer_id_type ∷ inv_req_amount_type ∷ inv_req_features_type
    ∷ inv_req_quantity_type ∷ inv_req_payer_key_type ∷ inv_req_payer_note_type
    ∷ inv_req_payer_info_type ∷ inv_req_signature_type ∷ []

-- The checks for a nil key and a nil signature.
unfoldable pub payer_key_of : Option PubKey → Result PubKey
payer_key_of none = err payer_key_required
payer_key_of (some k) = ok k

unfoldable pub signature_of : Option Bytes → Result Bytes
signature_of none = err signature_required
signature_of (some s) = ok s

-- The checks of NewInvoiceRequest: the amount and the quantity against those of the offer.
unfoldable pub check_request : Offer → ℕ → ℕ → Result (Unit {0})
check_request offer amount quantity = do
  guard (not (ltb amount offer.minimum_amount)) (wrapped below_min_amount)
  let have_min_quantity = not (offer.quantity_min == 0)
  let have_max_quantity = not (offer.quantity_max == 0)
  let quantity_specified = have_min_quantity && have_max_quantity
  guard (not (quantity_specified && quantity == 0)) (wrapped quantity_required)
  guard (not (have_min_quantity && ltb quantity offer.quantity_min))
      (wrapped outside_quantity_range)
  guard (not (have_max_quantity && ltb offer.quantity_max quantity))
      (wrapped outside_quantity_range)
  guard (not (not quantity_specified && not (quantity == 0))) (wrapped no_quantity)

-- The request that NewInvoiceRequest builds, before its records and its root.
abbrev pub request_for : Offer → ℕ → ℕ → Option PubKey → Bytes → InvoiceRequest
request_for offer amount quantity payer_key payer_note = record {
  chainhash = offer.chainhash;
  offer_id = offer.merkle_root;
  amount = amount;
  features = offer.features;
  quantity = quantity;
  payer_key = payer_key;
  payer_note = payer_note;
  payer_info = [];
  signature = none;
  merkle_root = zero_hash;
}

module _ (b : Bolt12) where
  -- The fields of a request, in the order of their types; `features` is the record of the features.
  unfoldable pub invoice_request_fields : InvoiceRequest → Option Record → List (Option Record)
  unfolding hash_field tu64_field text_field x_only_field signature_field
  invoice_request_fields i features =
      hash_field inv_req_chain_type i.chainhash
      ∷ hash_field inv_req_offer_id_type i.offer_id
      ∷ tu64_field b inv_req_amount_type i.amount
      ∷ features
      ∷ tu64_field b inv_req_quantity_type i.quantity
      ∷ x_only_field b inv_req_payer_key_type i.payer_key
      ∷ text_field inv_req_payer_note_type i.payer_note
      ∷ text_field inv_req_payer_info_type i.payer_info
      ∷ signature_field inv_req_signature_type i.signature
      ∷ []

  -- The method records of an invoice request.
  unfoldable pub invoice_request_records : InvoiceRequest → Result (List Record)
  unfolding invoice_request_fields gather encode_features_record
  invoice_request_records i = do
    features ← wrap (encode_features_record b inv_req_features_type i.features)
    ok (gather (invoice_request_fields i features))

  -- The error of the root is formatted with %v, so it is not wrapped.
  unfoldable pub new_invoice_request : Offer → ℕ → ℕ → Option PubKey → Bytes → Result InvoiceRequest
  unfolding check_request invoice_request_records root_of_records
  new_invoice_request offer amount quantity payer_key payer_note = do
    check_request offer amount quantity
    records ←
        wrap (invoice_request_records (request_for offer amount quantity payer_key payer_note))
    merkle_root ← replace text (root_of_records b records)
    ok (record (request_for offer amount quantity payer_key payer_note) {
      merkle_root = merkle_root;
    })

  -- The method SignatureDigest of an invoice request.
  unfoldable pub invoice_request_digest : InvoiceRequest → Bytes
  unfolding signature_digest
  invoice_request_digest i = signature_digest b invoice_request_tag signature_tag i.merkle_root

  -- The method Validate of an invoice request.
  unfoldable pub validate_invoice_request : InvoiceRequest → Result (Unit {0})
  unfolding payer_key_of signature_of signature_digest validate_signature bytes_eq zero_hash
  validate_invoice_request i = do
    guard (not (bytes_eq i.offer_id zero_hash)) offer_id_required
    payer_key ← payer_key_of i.payer_key
    signature ← signature_of i.signature
    validate_signature b signature payer_key
        (signature_digest b invoice_request_tag signature_tag i.merkle_root)

  unfoldable pub encode_invoice_request : InvoiceRequest → Result Bytes
  unfolding encode_records_stream invoice_request_records
  encode_invoice_request i = encode_records_stream b (invoice_request_records i)

  -- As for an offer, the records are read first, and the values converted afterwards.
  unfoldable pub decode_invoice_request : Bytes → Result InvoiceRequest
  unfolding find_value read_or decode_tu64 hash_if decode_features_record x_only_if signature_if
      decode_merkle_root invoice_request_records copy_into zero_hash
  decode_invoice_request bytes = do
    entries ← wrap (b.tlv.decode_stream invoice_request_types bytes)
    chain ← wrap (read_or zero_hash b.d_bytes32 (find_value inv_req_chain_type entries))
    id ← wrap (read_or zero_hash b.d_bytes32 (find_value inv_req_offer_id_type entries))
    amount ← wrap (read_or 0 (decode_tu64 b) (find_value inv_req_amount_type entries))
    quantity ← wrap (read_or 0 (decode_tu64 b) (find_value inv_req_quantity_type entries))
    key ← wrap (read_or zero_hash b.d_bytes32 (find_value inv_req_payer_key_type entries))
    sig ← wrap (read_or (copy_into 64 []) b.d_bytes64 (find_value inv_req_signature_type entries))
    chainhash ← wrap (hash_if b (find_value inv_req_chain_type entries) chain)
    offer_id ← wrap (hash_if b (find_value inv_req_offer_id_type entries) id)
    features ← wrap (decode_features_record b (find_value inv_req_features_type entries))
    payer_key ← wrap (x_only_if b (find_value inv_req_payer_key_type entries) key)
    let request : InvoiceRequest = record {
      chainhash = chainhash;
      offer_id = offer_id;
      amount = amount;
      features = some features;
      quantity = quantity;
      payer_key = payer_key;
      payer_note = bytes_or_nil (find_value inv_req_payer_note_type entries);
      payer_info = bytes_or_nil (find_value inv_req_payer_info_type entries);
      signature = signature_if (find_value inv_req_signature_type entries) sig;
      merkle_root = zero_hash;
    }
    merkle_root ←
        wrap (decode_merkle_root b (invoice_request_records request) invoice_request_types entries)
    ok (record request { merkle_root = merkle_root })
