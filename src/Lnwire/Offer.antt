-- ===== src/Lnwire/Offer.antt =====
-- lnwire/bolt12_offer.go: offers, their validation and their encoding.
pub mod Valid
pub mod Sample
mod Runs
pub mod RoundTrip
use boltnd.Prelude.{
  ℕ, Bool, true, false, not, ◌&&◌, Option, none, some, List, [], ◌∷◌, length, ltb, ◌==◌, Bytes,
}
use boltnd.Prelude.Errors.{
  Result, ok, err, wrap, wrapped, node_id_required, description_required, quantity_range, ◌>>=◌,
  ◌>>◌, guard,
}
use boltnd.Lnwire.Tlv.{PubKey, Record}
use boltnd.Lnwire.Payload.{find_value, bytes_or_nil}
use boltnd.Lnwire.Bolt12.{
  Bolt12, Features, zero_hash, gather, hash_field, text_field, signature_field, read_or, time_if,
  signature_if, tu64_field, decode_tu64, time_field, x_only_field, encode_features_record,
  decode_features_record, hash_if, x_only_if, decode_merkle_root, encode_records_stream,
  signature_digest, validate_optional, offer_tag, signature_tag, copy_into,
}

abbrev pub chain_type : ℕ
chain_type = 2

abbrev pub amount_type : ℕ
amount_type = 8

abbrev pub description_type : ℕ
description_type = 10

abbrev pub features_type : ℕ
features_type = 12

abbrev pub expiry_type : ℕ
expiry_type = 14

abbrev pub issuer_type : ℕ
issuer_type = 20

abbrev pub quantity_min_type : ℕ
quantity_min_type = 22

abbrev pub quantity_max_type : ℕ
quantity_max_type = 24

abbrev pub node_id_type : ℕ
node_id_type = 30

abbrev pub signature_type : ℕ
signature_type = 240

-- An expiry is its seconds as a uint64, since an encoded offer has no smaller unit.
pub record Offer : Type 0 where
  pub chainhash : Bytes
  pub minimum_amount : ℕ
  pub description : Bytes
  pub features : Option Features
  pub expiry : Option ℕ
  pub issuer : Bytes
  pub quantity_min : ℕ
  pub quantity_max : ℕ
  pub node_id : Option PubKey
  pub signature : Option Bytes
  pub merkle_root : Bytes

-- The check for a nil key, which the calls that follow rely on.
unfoldable pub node_id_of : Option PubKey → Result PubKey
node_id_of none = err node_id_required
node_id_of (some k) = ok k

-- The types of the records that an offer is decoded with.
abbrev pub offer_types : List ℕ
offer_types =
    chain_type ∷ amount_type ∷ description_type ∷ features_type ∷ expiry_type ∷ issuer_type
    ∷ quantity_min_type ∷ quantity_max_type ∷ node_id_type ∷ signature_type ∷ []

module _ (b : Bolt12) where
  -- The fields of an offer, in the order of their types; `features` is the record of the features.
  unfoldable pub offer_fields : Offer → Option Record → List (Option Record)
  unfolding hash_field tu64_field text_field time_field x_only_field signature_field
  offer_fields o features =
      hash_field chain_type o.chainhash
      ∷ tu64_field b amount_type o.minimum_amount
      ∷ text_field description_type o.description
      ∷ features
      ∷ time_field b expiry_type o.expiry
      ∷ text_field issuer_type o.issuer
      ∷ tu64_field b quantity_min_type o.quantity_min
      ∷ tu64_field b quantity_max_type o.quantity_max
      ∷ x_only_field b node_id_type o.node_id
      ∷ signature_field signature_type o.signature
      ∷ []

  -- The method records of an offer.
  unfoldable pub offer_records : Offer → Result (List Record)
  unfolding offer_fields gather encode_features_record
  offer_records o = do
    features ← wrap (encode_features_record b features_type o.features)
    ok (gather (offer_fields o features))

  -- The method Validate of an offer.
  unfoldable pub validate_offer : Offer → Result (Unit {0})
  unfolding node_id_of signature_digest validate_optional
  validate_offer o = do
    node_id ← node_id_of o.node_id
    guard (not (length o.description == 0)) description_required
    guard
        (not (
          not (o.quantity_min == 0)
          && not (o.quantity_max == 0)
          && ltb o.quantity_max o.quantity_min))
        (wrapped quantity_range)
    validate_optional b o.signature node_id
        (signature_digest b offer_tag signature_tag o.merkle_root)

  unfoldable pub encode_offer : Offer → Result Bytes
  unfolding encode_records_stream offer_records
  encode_offer o = encode_records_stream b (offer_records o)

  -- `decode_stream` stands for NewStream too. The records are read first, in the stream's order, and the
  -- values converted afterwards.
  unfoldable pub decode_offer : Bytes → Result Offer
  unfolding find_value read_or decode_tu64 hash_if time_if decode_features_record x_only_if
      signature_if decode_merkle_root offer_records copy_into zero_hash
  decode_offer offer_bytes = do
    entries ← wrap (b.tlv.decode_stream offer_types offer_bytes)
    chain ← wrap (read_or zero_hash b.d_bytes32 (find_value chain_type entries))
    amount ← wrap (read_or 0 (decode_tu64 b) (find_value amount_type entries))
    expiry ← wrap (read_or 0 (decode_tu64 b) (find_value expiry_type entries))
    quantity_min ← wrap (read_or 0 (decode_tu64 b) (find_value quantity_min_type entries))
    quantity_max ← wrap (read_or 0 (decode_tu64 b) (find_value quantity_max_type entries))
    key ← wrap (read_or zero_hash b.d_bytes32 (find_value node_id_type entries))
    sig ← wrap (read_or (copy_into 64 []) b.d_bytes64 (find_value signature_type entries))
    chainhash ← wrap (hash_if b (find_value chain_type entries) chain)
    features ← wrap (decode_features_record b (find_value features_type entries))
    node_id ← wrap (x_only_if b (find_value node_id_type entries) key)
    let offer : Offer = record {
      chainhash = chainhash;
      minimum_amount = amount;
      description = bytes_or_nil (find_value description_type entries);
      features = some features;
      expiry = time_if (find_value expiry_type entries) expiry;
      issuer = bytes_or_nil (find_value issuer_type entries);
      quantity_min = quantity_min;
      quantity_max = quantity_max;
      node_id = node_id;
      signature = signature_if (find_value signature_type entries) sig;
      merkle_root = zero_hash;
    }
    merkle_root ← wrap (decode_merkle_root b (offer_records offer) offer_types entries)
    ok (record offer { merkle_root = merkle_root })
