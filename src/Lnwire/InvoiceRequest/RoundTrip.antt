-- ===== src/Lnwire/InvoiceRequest/RoundTrip.antt =====
-- Invoice requests that are encoded and decoded again.
use mathlib.Core.Path.{subst}
use boltnd.Prelude.{
  ℕ, ◌^◌, ◌<◌, ◌≡◌, refl, sym, ap, Option, some, true, List, length, Bytes, All, arith,
}
use boltnd.Prelude.Errors.{Result, ◌>>=◌, ok, wrap, wrap-eq-ok, ok-injective, >>=-eq-ok}
use boltnd.Lnwire.Tlv.{Record}
use boltnd.Lnwire.Payload.{find_value}
use boltnd.Lnwire.Bolt12.{
  Bolt12, Features, gather, encode_features_record, root_of_records, member, decode_merkle_root,
}
use boltnd.Lnwire.Bolt12.Fields.{
  Slots, entries_of, AreFields, Rising, Matches, decode_stream-Matches, find_value-slot, slot,
}
use boltnd.Lnwire.Bolt12.Values.{
  Reads, IsSignature, IsXOnly, hash_field-IsField, hash_field-read, tu64_field-IsField,
  tu64_field-read, text_field-IsField, text_field-read, x_only_field-IsField, x_only_field-read,
  signature_field-IsField, signature_field-read,
}
use boltnd.Lnwire.Bolt12.Streamed.{
  encode_features_record-IsField, encode_features_record-read, decode_merkle_root-known,
  encode_records_stream-parts,
}
use boltnd.Lnwire.InvoiceRequest.{
  InvoiceRequest, invoice_request_types, invoice_request_fields, invoice_request_records,
  encode_invoice_request, decode_invoice_request, inv_req_chain_type, inv_req_offer_id_type,
  inv_req_amount_type, inv_req_features_type, inv_req_quantity_type, inv_req_payer_key_type,
  inv_req_payer_note_type, inv_req_payer_info_type, inv_req_signature_type,
}

-- Hashes have 32 bytes, signatures 64 and integers fit in 64 bits; the features are a set of bits, not
-- nil; the payer's key is the one that its x coordinate stands for.
pub record IsEncodable (b : Bolt12) (i : InvoiceRequest) (fs : Features) : Type 0 where
  pub chainhash : length i.chainhash ≡ 32
  pub offer_id : length i.offer_id ≡ 32
  pub amount : i.amount < 2 ^ 64
  pub features : i.features ≡ some fs
  pub feature_bits : Rising fs
  pub quantity : i.quantity < 2 ^ 64
  pub payer_key : IsXOnly b i.payer_key
  pub signature : IsSignature i.signature
  pub merkle_root : length i.merkle_root ≡ 32

-- The merkle root of a request is that of its records.
abbrev pub HasRoot : Bolt12 → InvoiceRequest → Type 0
HasRoot b i =
    (rs : List Record) × (invoice_request_records b i ≡ ok rs)
    × (root_of_records b rs ≡ ok i.merkle_root)

pub types-Rising : Rising invoice_request_types
types-Rising = omega arith

types-member : All (λ t. member t invoice_request_types ≡ true) invoice_request_types
unfolding member
types-member = (refl, (refl, (refl, (refl, (refl, (refl, (refl, (refl, (refl, tt)))))))))

module _ (b : Bolt12) (laws : Reads b) (i : InvoiceRequest) (fs : Features)
    (valid : IsEncodable b i fs) where
  pub invoice_request_records-parts :
      (rs : List Record)
      → invoice_request_records b i ≡ ok rs
      → (f : Option Record) × (encode_features_record b inv_req_features_type (some fs) ≡ ok f)
        × (rs ≡ gather (invoice_request_fields b i f))
  unfolding invoice_request_records
  invoice_request_records-parts rs h =
      let (f, e, made) =
        >>=-eq-ok (wrap (encode_features_record b inv_req_features_type i.features)) _ h in
      (f, wrap-eq-ok _ (rw valid.features at e), sym (ok-injective made))

  pub invoice_request_fields-AreFields :
      (f : Option Record)
      → encode_features_record b inv_req_features_type (some fs) ≡ ok f
      → AreFields invoice_request_types (invoice_request_fields b i f)
  unfolding invoice_request_fields
  invoice_request_fields-AreFields f e = (
    hash_field-IsField b laws _ i.chainhash valid.chainhash,
    (
      hash_field-IsField b laws _ i.offer_id valid.offer_id,
      (
        tu64_field-IsField b laws _ i.amount valid.amount,
        (
          encode_features_record-IsField b laws _ fs f e,
          (
            tu64_field-IsField b laws _ i.quantity valid.quantity,
            (
              x_only_field-IsField b laws _ i.payer_key,
              (
                text_field-IsField b laws _ i.payer_note,
                (
                  text_field-IsField b laws _ i.payer_info,
                  (signature_field-IsField b laws _ i.signature valid.signature, tt),
                ),
              ),
            ),
          ),
        ),
      ),
    ),
  )

  decode_invoice_request-entries :
      (v : Bytes) (f : Option Record) (ws : Slots invoice_request_types) (rs : List Record)
      → encode_features_record b inv_req_features_type (some fs) ≡ ok f
      → b.tlv.decode_stream invoice_request_types v ≡ ok (entries_of invoice_request_types ws)
      → Matches invoice_request_types (invoice_request_fields b i f) ws
      → invoice_request_records b i ≡ ok rs
      → root_of_records b rs ≡ ok i.merkle_root
      → decode_invoice_request b v ≡ ok i
  unfolding decode_invoice_request invoice_request_fields
  decode_invoice_request-entries v f ws rs bits e m made root =
      let at : (t : ℕ)
          → find_value t (entries_of invoice_request_types ws) ≡ slot t invoice_request_types ws =
        λ t. find_value-slot t invoice_request_types ws types-Rising in
      let (chain, read_chain, as_chain) =
        hash_field-read b laws _ i.chainhash _ valid.chainhash m.0 in
      let (id, read_id, as_id) = hash_field-read b laws _ i.offer_id _ valid.offer_id m.1.0 in
      let (key, read_key, as_key) =
        x_only_field-read b laws _ i.payer_key _ valid.payer_key m.1.1.1.1.1.0 in
      let (sig, read_sig, as_sig) =
        signature_field-read b laws _ i.signature _ valid.signature m.1.1.1.1.1.1.1.1.0 in
      let rooted : decode_merkle_root b (invoice_request_records b i) invoice_request_types
            (entries_of invoice_request_types ws)
          ≡ ok i.merkle_root =
        rw made (
          decode_merkle_root-known b laws rs i.merkle_root invoice_request_types ws types-member
            root valid.merkle_root) in
      rw
        (
          e,
          at inv_req_chain_type,
          at inv_req_offer_id_type,
          at inv_req_amount_type,
          at inv_req_quantity_type,
          at inv_req_payer_key_type,
          at inv_req_signature_type,
          at inv_req_features_type,
          at inv_req_payer_note_type,
          at inv_req_payer_info_type,
        )
        (rw
          (
            read_chain,
            read_id,
            tu64_field-read b laws _ i.amount _ valid.amount m.1.1.0,
            tu64_field-read b laws _ i.quantity _ valid.quantity m.1.1.1.1.0,
            read_key,
            read_sig,
            as_chain,
            as_id,
            encode_features_record-read b laws _ fs f _ valid.feature_bits bits m.1.1.1.0,
            as_key,
            text_field-read b laws _ i.payer_note _ m.1.1.1.1.1.1.0,
            text_field-read b laws _ i.payer_info _ m.1.1.1.1.1.1.1.0,
            as_sig,
          )
          (subst
            (λ x.
              (wrap (
                  decode_merkle_root b (invoice_request_records b (record i { features = x }))
                    invoice_request_types (entries_of invoice_request_types ws))
                >>= λ q. ok (record i { features = x; merkle_root = q }))
              ≡ ok i)
            valid.features
            (ap {B = Result InvoiceRequest} (λ r. wrap r >>= λ q. ok (record i { merkle_root = q }))
              rooted)))

  -- Where lnd's streams and element codecs read back what they wrote, the request's hashes have 32 bytes, its
  -- signature 64, its integers fit in 64 bits, its features are a set of bits and not nil, its payer's key is the one
  -- that its x coordinate stands for, so of even Y, and its merkle root is that of its records: decoding an invoice request that was encoded gives the request.
  pub decode-encode_invoice_request :
      (v : Bytes)
      → HasRoot b i
      → encode_invoice_request b i ≡ ok v
      → decode_invoice_request b v ≡ ok i
  unfolding encode_invoice_request
  decode-encode_invoice_request v (rs, made, root) h =
      let (qs, made_too, streamed, written) =
        encode_records_stream-parts b (invoice_request_records b i) v h in
      let (f, bits, gathered) = invoice_request_records-parts qs made_too in
      let (ws, e, m) =
        decode_stream-Matches b.tlv laws.streams invoice_request_types
          (invoice_request_fields b i f) v (invoice_request_fields-AreFields f bits)
          (rw gathered at streamed) (rw gathered at written) in
      decode_invoice_request-entries v f ws rs bits e m made root
