-- ===== src/Lnwire/Offer/RoundTrip.antt =====
-- Offers that are encoded and decoded again.
use mathlib.Core.Path.{subst}
use boltnd.Prelude.{
  ℕ, ◌^◌, ◌<◌, ◌≡◌, refl, sym, ap, Option, some, true, List, length, Bytes, All, arith,
}
use boltnd.Prelude.Errors.{Result, ◌>>=◌, ok, wrap, wrap-eq-ok, ok-injective, >>=-eq-ok}
use boltnd.Lnwire.Tlv.{Record}
use boltnd.Lnwire.Bolt12.{
  Bolt12, Features, gather, encode_features_record, root_of_records, member, decode_merkle_root,
}
use boltnd.Lnwire.Bolt12.Fields.{
  Slots, entries_of, AreFields, Rising, Matches, decode_stream-Matches, find_value-slot, slot,
}
use boltnd.Lnwire.Bolt12.Values.{
  Reads, IsTime, IsSignature, IsXOnly, hash_field-IsField, hash_field-read, tu64_field-IsField,
  tu64_field-read, text_field-IsField, text_field-read, time_field-IsField, time_field-read,
  x_only_field-IsField, x_only_field-read, signature_field-IsField, signature_field-read,
}
use boltnd.Lnwire.Bolt12.Streamed.{
  encode_features_record-IsField, encode_features_record-read, decode_merkle_root-known,
  encode_records_stream-parts,
}
use boltnd.Lnwire.Payload.{find_value}
use boltnd.Lnwire.Offer.{
  Offer, offer_types, offer_fields, offer_records, encode_offer, decode_offer, features_type,
  chain_type, amount_type, expiry_type, quantity_min_type, quantity_max_type, node_id_type,
  signature_type, description_type, issuer_type,
}

-- Hashes have 32 bytes, signatures 64 and integers fit in 64 bits; the features are a set of bits, not
-- nil; the expiry is not that of 0 seconds; the node's key is the one that its x coordinate stands for.
pub record IsEncodable (b : Bolt12) (o : Offer) (fs : Features) : Type 0 where
  pub chainhash : length o.chainhash ≡ 32
  pub minimum_amount : o.minimum_amount < 2 ^ 64
  pub features : o.features ≡ some fs
  pub feature_bits : Rising fs
  pub expiry : IsTime o.expiry
  pub quantity_min : o.quantity_min < 2 ^ 64
  pub quantity_max : o.quantity_max < 2 ^ 64
  pub node_id : IsXOnly b o.node_id
  pub signature : IsSignature o.signature
  pub merkle_root : length o.merkle_root ≡ 32

-- The merkle root of an offer is that of its records.
abbrev pub HasRoot : Bolt12 → Offer → Type 0
HasRoot b o =
    (rs : List Record) × (offer_records b o ≡ ok rs) × (root_of_records b rs ≡ ok o.merkle_root)

offer_types-Rising : Rising offer_types
offer_types-Rising = omega arith

offer_types-member : All (λ t. member t offer_types ≡ true) offer_types
unfolding member
offer_types-member =
    (refl, (refl, (refl, (refl, (refl, (refl, (refl, (refl, (refl, (refl, tt))))))))))

module _ (b : Bolt12) (laws : Reads b) (o : Offer) (fs : Features)
    (valid : IsEncodable b o fs) where
  offer_records-parts :
      (rs : List Record)
      → offer_records b o ≡ ok rs
      → (f : Option Record) × (encode_features_record b features_type (some fs) ≡ ok f)
        × (rs ≡ gather (offer_fields b o f))
  unfolding offer_records
  offer_records-parts rs h =
      let (f, e, made) = >>=-eq-ok (wrap (encode_features_record b features_type o.features)) _ h in
      (f, wrap-eq-ok _ (rw valid.features at e), sym (ok-injective made))

  offer_fields-AreFields :
      (f : Option Record)
      → encode_features_record b features_type (some fs) ≡ ok f
      → AreFields offer_types (offer_fields b o f)
  unfolding offer_fields
  offer_fields-AreFields f e = (
    hash_field-IsField b laws _ o.chainhash valid.chainhash,
    (
      tu64_field-IsField b laws _ o.minimum_amount valid.minimum_amount,
      (
        text_field-IsField b laws _ o.description,
        (
          encode_features_record-IsField b laws _ fs f e,
          (
            time_field-IsField b laws _ o.expiry valid.expiry,
            (
              text_field-IsField b laws _ o.issuer,
              (
                tu64_field-IsField b laws _ o.quantity_min valid.quantity_min,
                (
                  tu64_field-IsField b laws _ o.quantity_max valid.quantity_max,
                  (
                    x_only_field-IsField b laws _ o.node_id,
                    (signature_field-IsField b laws _ o.signature valid.signature, tt),
                  ),
                ),
              ),
            ),
          ),
        ),
      ),
    ),
  )

  decode_offer-entries :
      (v : Bytes) (f : Option Record) (ws : Slots offer_types) (rs : List Record)
      → encode_features_record b features_type (some fs) ≡ ok f
      → b.tlv.decode_stream offer_types v ≡ ok (entries_of offer_types ws)
      → Matches offer_types (offer_fields b o f) ws
      → offer_records b o ≡ ok rs
      → root_of_records b rs ≡ ok o.merkle_root
      → decode_offer b v ≡ ok o
  unfolding decode_offer offer_fields
  decode_offer-entries v f ws rs bits e m made root =
      let at : (t : ℕ) → find_value t (entries_of offer_types ws) ≡ slot t offer_types ws =
        λ t. find_value-slot t offer_types ws offer_types-Rising in
      let (chain, read_chain, as_chain) =
        hash_field-read b laws _ o.chainhash _ valid.chainhash m.0 in
      let (expiry, read_expiry, as_expiry) =
        time_field-read b laws _ o.expiry _ valid.expiry m.1.1.1.1.0 in
      let (key, read_key, as_key) =
        x_only_field-read b laws _ o.node_id _ valid.node_id m.1.1.1.1.1.1.1.1.0 in
      let (sig, read_sig, as_sig) =
        signature_field-read b laws _ o.signature _ valid.signature m.1.1.1.1.1.1.1.1.1.0 in
      let rooted : decode_merkle_root b (offer_records b o) offer_types (entries_of offer_types ws)
          ≡ ok o.merkle_root =
        rw made (
          decode_merkle_root-known b laws rs o.merkle_root offer_types ws offer_types-member root
            valid.merkle_root) in
      rw
        (
          e,
          at chain_type,
          at amount_type,
          at expiry_type,
          at quantity_min_type,
          at quantity_max_type,
          at node_id_type,
          at signature_type,
          at features_type,
          at description_type,
          at issuer_type,
        )
        (rw
          (
            read_chain,
            tu64_field-read b laws _ o.minimum_amount _ valid.minimum_amount m.1.0,
            read_expiry,
            tu64_field-read b laws _ o.quantity_min _ valid.quantity_min m.1.1.1.1.1.1.0,
            tu64_field-read b laws _ o.quantity_max _ valid.quantity_max m.1.1.1.1.1.1.1.0,
            read_key,
            read_sig,
            as_chain,
            encode_features_record-read b laws _ fs f _ valid.feature_bits bits m.1.1.1.0,
            as_key,
            text_field-read b laws _ o.description _ m.1.1.0,
            as_expiry,
            text_field-read b laws _ o.issuer _ m.1.1.1.1.1.0,
            as_sig,
          )
          (subst
            (λ x.
              (wrap (
                  decode_merkle_root b (offer_records b (record o { features = x })) offer_types
                    (entries_of offer_types ws))
                >>= λ q. ok (record o { features = x; merkle_root = q }))
              ≡ ok o)
            valid.features
            (ap {B = Result Offer} (λ r. wrap r >>= λ q. ok (record o { merkle_root = q }))
              rooted)))

  -- Where lnd's streams and element codecs read back what they wrote, the offer's hashes have 32 bytes, its signature
  -- 64, its integers fit in 64 bits, its features are a set of bits and not nil, its expiry is not that of 0 seconds
  -- nor Go's zero time, its node's key is the one that its x coordinate stands for, so of even Y, and its merkle root
  -- is that of its records: decoding an offer that was encoded gives the offer.
  pub decode-encode_offer :
      (v : Bytes) → HasRoot b o → encode_offer b o ≡ ok v → decode_offer b v ≡ ok o
  unfolding encode_offer decode_offer offer_fields
  decode-encode_offer v (rs, made, root) h =
      let (qs, made_too, streamed, written) =
        encode_records_stream-parts b (offer_records b o) v h in
      let (f, bits, gathered) = offer_records-parts qs made_too in
      let (ws, e, m) =
        decode_stream-Matches b.tlv laws.streams offer_types (offer_fields b o f) v
          (offer_fields-AreFields f bits) (rw gathered at streamed) (rw gathered at written) in
      decode_offer-entries v f ws rs bits e m made root
