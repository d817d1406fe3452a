-- ===== src/Lnwire/Invoice.antt =====
-- lnwire/bolt12_invoice.go: invoices, their validation and their encoding.
pub mod Valid
mod Runs
pub mod Values
pub mod RoundTrip
use boltnd.Prelude.{
  ℕ, ◌*◌, ◌%◌, ◌^◌, Bool, true, false, not, Option, none, some, List, [], ◌∷◌, length, ◌==◌, Bytes,
  if◌then◌else◌,
}
use boltnd.Prelude.Bytes.{bytes_eq}
use boltnd.Prelude.Errors.{
  Result, ok, err, wrap, no_amount, no_payment_hash, no_creation_time, description_required, ◌>>=◌,
  ◌>>◌, guard,
}
use boltnd.Lnwire.Tlv.{PubKey, Record}
use boltnd.Lnwire.Payload.{find_value, bytes_or_nil}
use boltnd.Lnwire.Offer.{node_id_of}
use boltnd.Lnwire.Bolt12.{
  Bolt12, Features, zero_hash, gather, hash_field, text_field, signature_field, read_or, time_if,
  signature_if, tu64_field, decode_tu64, encode_features_record, decode_features_record, hash_if,
  decode_merkle_root, encode_records_stream, signature_digest, validate_optional, invoice_tag,
  signature_tag, copy_into,
}

abbrev pub inv_chain_type : ℕ
inv_chain_type = 3

abbrev pub inv_offer_id_type : ℕ
inv_offer_id_type = 4

abbrev pub inv_amount_type : ℕ
inv_amount_type = 8

abbrev pub inv_desc_type : ℕ
inv_desc_type = 10

abbrev pub inv_feat_type : ℕ
inv_feat_type = 12

abbrev pub inv_node_id_type : ℕ
inv_node_id_type = 30

abbrev pub inv_quantity_type : ℕ
inv_quantity_type = 32

abbrev pub inv_payer_key_type : ℕ
inv_payer_key_type = 38

abbrev pub inv_payer_note_type : ℕ
inv_payer_note_type = 39

abbrev pub inv_created_at_type : ℕ
inv_created_at_type = 40

abbrev pub inv_payment_hash_type : ℕ
inv_payment_hash_type = 42

abbrev pub inv_relative_expiry_type : ℕ
inv_relative_expiry_type = 44

abbrev pub in_cltv_type : ℕ
in_cltv_type = 46

abbrev pub inv_payer_info_type : ℕ
inv_payer_info_type = 50

abbrev pub inv_sig_type : ℕ
inv_sig_type = 240

-- A creation time is its seconds as a uint64, the relative expiry its nanoseconds modulo 2^64.
pub record Invoice : Type 0 where
  pub chainhash : Bytes
  pub offer_id : Bytes
  pub amount : ℕ
  pub description : Bytes
  pub features : Option Features
  pub node_id : Option PubKey
  pub quantity : ℕ
  pub payer_key : Option PubKey
  pub payer_note : Bytes
  pub created_at : Option ℕ
  pub payment_hash : Bytes
  pub relative_expiry : ℕ
  pub cltv_expiry : ℕ
  pub payer_info : Bytes
  pub signature : Option Bytes
  pub merkle_root : Bytes

-- The types of the records that an invoice is decoded with.
abbrev pub invoice_types : List ℕ
invoice_types =
    inv_chain_type ∷ inv_offer_id_type ∷ inv_amount_type ∷ inv_desc_type ∷ inv_feat_type
    ∷ inv_node_id_type ∷ inv_quantity_type ∷ inv_payer_key_type ∷ inv_payer_note_type
    ∷ inv_created_at_type ∷ inv_payment_hash_type ∷ inv_relative_expiry_type ∷ in_cltv_type
    ∷ inv_payer_info_type ∷ inv_sig_type ∷ []

-- `i.CreatedAt.IsZero()`
unfoldable pub is_zero_time : Option ℕ → Bool
is_zero_time none = true
is_zero_time (some s) = false

-- `time.Second * time.Duration(relativeExpiry)` in an int64
unfoldable pub expiry_if : Option Bytes → ℕ → ℕ
expiry_if none n = 0
expiry_if (some v) n = 1000000000 * n % 2 ^ 64

module _ (b : Bolt12) where
  -- The record of a uint64 in its eight bytes.
  abbrev pub uint64_record : ℕ → ℕ → Record
  uint64_record t n = record { tlv_type = t; size = 8; value = b.e_uint64 n }

  unfoldable pub uint64_field : ℕ → ℕ → Option Record
  uint64_field t n = if n == 0 then none else some (uint64_record t n)

  unfoldable pub created_field : ℕ → Option ℕ → Option Record
  created_field t none = none
  created_field t (some s) = some (uint64_record t s)

  -- Whether there is a record depends on the duration, its value on the whole seconds.
  unfoldable pub expiry_field : ℕ → ℕ → Option Record
  expiry_field t d = if d == 0 then none else some (uint64_record t (b.seconds d))

  unfoldable pub key_field : ℕ → Option PubKey → Option Record
  key_field t none = none
  key_field t (some k) = some (record { tlv_type = t; size = 33; value = b.tlv.e_pub_key k })

  unfoldable pub read_key : Option Bytes → Result (Option PubKey)
  read_key none = ok none
  read_key (some v) = do (k, rest) ← b.tlv.d_pub_key v; ok (some k)

  -- The fields of an invoice, in the order of their types; `features` is the record of the features.
  unfoldable pub invoice_fields : Invoice → Option Record → List (Option Record)
  unfolding hash_field tu64_field text_field uint64_field created_field expiry_field key_field
      signature_field
  invoice_fields i features =
      hash_field inv_chain_type i.chainhash
      ∷ hash_field inv_offer_id_type i.offer_id
      ∷ tu64_field b inv_amount_type i.amount
      ∷ text_field inv_desc_type i.description
      ∷ features
      ∷ key_field inv_node_id_type i.node_id
      ∷ tu64_field b inv_quantity_type i.quantity
      ∷ key_field inv_payer_key_type i.payer_key
      ∷ text_field inv_payer_note_type i.payer_note
      ∷ created_field inv_created_at_type i.created_at
      ∷ hash_field inv_payment_hash_type i.payment_hash
      ∷ expiry_field inv_relative_expiry_type i.relative_expiry
      ∷ uint64_field in_cltv_type i.cltv_expiry
      ∷ text_field inv_payer_info_type i.payer_info
      ∷ signature_field inv_sig_type i.signature
      ∷ []

  -- The method records of an invoice.
  unfoldable pub invoice_records : Invoice → Result (List Record)
  unfolding invoice_fields gather encode_features_record
  invoice_records i = do
    features ← encode_features_record b inv_feat_type i.features
    ok (gather (invoice_fields i features))

  -- The method Validate of an invoice.
  unfoldable pub validate_invoice : Invoice → Result (Unit {0})
  unfolding node_id_of signature_digest validate_optional is_zero_time bytes_eq zero_hash
  validate_invoice i = do
    guard (not (i.amount == 0)) no_amount
    guard (not (bytes_eq i.payment_hash zero_hash)) no_payment_hash
    guard (not (is_zero_time i.created_at)) no_creation_time
    node_id ← node_id_of i.node_id
    guard (not (length i.description == 0)) description_required
    validate_optional b i.signature node_id
        (signature_digest b invoice_tag signature_tag i.merkle_root)

  unfoldable pub encode_invoice : Invoice → Result Bytes
  unfolding encode_records_stream invoice_records
  encode_invoice i = encode_records_stream b (invoice_records i)

  -- As for an offer, the records are read first, and the values converted afterwards.
  unfoldable pub decode_invoice : Bytes → Result Invoice
  unfolding find_value read_or decode_tu64 hash_if time_if decode_features_record read_key expiry_if
      signature_if decode_merkle_root invoice_records copy_into zero_hash
  decode_invoice bytes = do
    entries ← wrap (b.tlv.decode_stream invoice_types bytes)
    chain ← wrap (read_or zero_hash b.d_bytes32 (find_value inv_chain_type entries))
    id ← wrap (read_or zero_hash b.d_bytes32 (find_value inv_offer_id_type entries))
    amount ← wrap (read_or 0 (decode_tu64 b) (find_value inv_amount_type entries))
    node_id ← wrap (read_key (find_value inv_node_id_type entries))
    quantity ← wrap (read_or 0 (decode_tu64 b) (find_value inv_quantity_type entries))
    payer_key ← wrap (read_key (find_value inv_payer_key_type entries))
    created ← wrap (read_or 0 b.d_uint64 (find_value inv_created_at_type entries))
    pay_hash ← wrap (read_or zero_hash b.d_bytes32 (find_value inv_payment_hash_type entries))
    expiry ← wrap (read_or 0 b.d_uint64 (find_value inv_relative_expiry_type entries))
    cltv ← wrap (read_or 0 b.d_uint64 (find_value in_cltv_type entries))
    sig ← wrap (read_or (copy_into 64 []) b.d_bytes64 (find_value inv_sig_type entries))
    chainhash ← wrap (hash_if b (find_value inv_chain_type entries) chain)
    offer_id ← wrap (hash_if b (find_value inv_offer_id_type entries) id)
    features ← wrap (decode_features_record b (find_value inv_feat_type entries))
    payment_hash ← wrap (hash_if b (find_value inv_payment_hash_type entries) pay_hash)
    let invoice : Invoice = record {
      chainhash = chainhash;
      offer_id = offer_id;
      amount = amount;
      description = bytes_or_nil (find_value inv_desc_type entries);
      features = some features;
      node_id = node_id;
      quantity = quantity;
      payer_key = payer_key;
      payer_note = bytes_or_nil (find_value inv_payer_note_type entries);
      created_at = time_if (find_value inv_created_at_type entries) created;
      payment_hash = payment_hash;
      relative_expiry = expiry_if (find_value inv_relative_expiry_type entries) expiry;
      cltv_expiry = cltv;
      payer_info = bytes_or_nil (find_value inv_payer_info_type entries);
      signature = signature_if (find_value inv_sig_type entries) sig;
      merkle_root = zero_hash;
    }
    merkle_root ← wrap (decode_merkle_root b (invoice_records invoice) invoice_types entries)
    ok (record invoice { merkle_root = merkle_root })
