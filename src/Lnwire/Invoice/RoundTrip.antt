-- ===== src/Lnwire/Invoice/RoundTrip.antt =====
-- Invoices that are encoded and decoded again.
use mathlib.Core.Path.{subst}
use boltnd.Prelude.{
  ℕ, ◌^◌, ◌<◌, ◌≡◌, refl, sym, ap, Option, some, true, List, length, Bytes, All, arith,
}
use boltnd.Prelude.Errors.{Result, ◌>>=◌, ok, wrap, ok-injective, >>=-eq-ok}
use boltnd.Lnwire.Tlv.{Record}
use boltnd.Lnwire.Payload.{find_value}
use boltnd.Lnwire.Bolt12.{
  Bolt12, Features, gather, encode_features_record, root_of_records, member, decode_merkle_root,
}
use boltnd.Lnwire.Bolt12.Fields.{
  Slots, entries_of, AreFields, Rising, Matches, decode_stream-Matches, find_value-slot, slot,
}
use boltnd.Lnwire.Bolt12.Values.{
  Reads, IsSignature, hash_field-IsField, hash_field-read, tu64_field-IsField, tu64_field-read,
  text_field-IsField, text_field-read, signature_field-IsField, signature_field-read,
}
use boltnd.Lnwire.Bolt12.Streamed.{
  encode_features_record-IsField, encode_features_record-read, decode_merkle_root-known,
  encode_records_stream-parts,
}
use boltnd.Lnwire.Invoice.{
  Invoice, invoice_types, invoice_fields, invoice_records, encode_invoice, decode_invoice,
  inv_chain_type, inv_offer_id_type, inv_amount_type, inv_desc_type, inv_feat_type,
  inv_node_id_type, inv_quantity_type, inv_payer_key_type, inv_payer_note_type, inv_created_at_type,
  inv_payment_hash_type, inv_relative_expiry_type, in_cltv_type, inv_payer_info_type, inv_sig_type,
}
use boltnd.Lnwire.Invoice.Values.{
  IsCreated, IsSeconds, uint64_field-IsField, uint64_field-read, created_field-IsField,
  created_field-read, expiry_field-IsField, expiry_field-read, key_field-IsField, key_field-read,
}

-- Hashes have 32 bytes, signatures 64 and integers fit in 64 bits; the features are a set of bits, not
-- nil; the relative expiry is one of whole seconds.
pub record IsEncodable (i : Invoice) (fs : Features) : Type 0 where
  pub chainhash : length i.chainhash ≡ 32
  pub offer_id : length i.offer_id ≡ 32
  pub amount : i.amount < 2 ^ 64
  pub features : i.features ≡ some fs
  pub feature_bits : Rising fs
  pub quantity : i.quantity < 2 ^ 64
  pub created_at : IsCreated i.created_at
  pub payment_hash : length i.payment_hash ≡ 32
  pub relative_expiry : IsSeconds i.relative_expiry
  pub cltv_expiry : i.cltv_expiry < 2 ^ 64
  pub signature : IsSignature i.signature
  pub merkle_root : length i.merkle_root ≡ 32

-- The merkle root of an invoice is that of its records.
abbrev pub HasRoot : Bolt12 → Invoice → Type 0
HasRoot b i =
    (rs : List Record) × (invoice_records b i ≡ ok rs) × (root_of_records b rs ≡ ok i.merkle_root)

types-Rising : Rising invoice_types
types-Rising = omega arith

types-member : All (λ t. member t invoice_types ≡ true) invoice_types
unfolding member
types-member = (
  refl,
  (
    refl,
    (
      refl,
      (
        refl,
        (refl, (refl, (refl, (refl, (refl, (refl, (refl, (refl, (refl, (refl, (refl, tt))))))))))),
      ),
    ),
  ),
)

module _ (b : Bolt12) (laws : Reads b) (i : Invoice) (fs : Features)
    (valid : IsEncodable i fs) where
  invoice_records-parts :
      (rs : List Record)
      → invoice_records b i ≡ ok rs
      → (f : Option Record) × (encode_features_record b inv_feat_type (some fs) ≡ ok f)
        × (rs ≡ gather (invoice_fields b i f))
  unfolding invoice_records
  invoice_records-parts rs h =
      let (f, e, made) = >>=-eq-ok (encode_features_record b inv_feat_type i.features) _ h in
      (f, rw valid.features at e, sym (ok-injective made))

  invoice_fields-AreFields :
      (f : Option Record)
      → encode_features_record b inv_feat_type (some fs) ≡ ok f
      → AreFields invoice_types (invoice_fields b i f)
  unfolding invoice_fields
  invoice_fields-AreFields f e = (
    hash_field-IsField b laws _ i.chainhash valid.chainhash,
    (
      hash_field-IsField b laws _ i.offer_id valid.offer_id,
      (
        tu64_field-IsField b laws _ i.amount valid.amount,
        (
          text_field-IsField b laws _ i.description,
          (
            encode_features_record-IsField b laws _ fs f e,
            (
              key_field-IsField b laws _ i.node_id,
              (
                tu64_field-IsField b laws _ i.quantity valid.quantity,
                (
                  key_field-IsField b laws _ i.payer_key,
                  (
                    text_field-IsField b laws _ i.payer_note,
                    (
                      created_field-IsField b laws _ i.created_at valid.created_at,
                      (
                        hash_field-IsField b laws _ i.payment_hash valid.payment_hash,
                        (
                          expiry_field-IsField b laws _ i.relative_expiry valid.relative_expiry,
                          (
                            uint64_field-IsField b laws _ i.cltv_expiry valid.cltv_expiry,
                            (
                              text_field-IsField b laws _ i.payer_info,
                              (signature_field-IsField b laws _ i.signature valid.signature, tt),
                            ),
                          ),
                        ),
                      ),
                    ),
                  ),
                ),
              ),
            ),
          ),
        ),
      ),
    ),
  )

  decode_invoice-entries :
      (v : Bytes) (f : Option Record) (ws : Slots invoice_types) (rs : List Record)
      → encode_features_record b inv_feat_type (some fs) ≡ ok f
      → b.tlv.decode_stream invoice_types v ≡ ok (entries_of invoice_types ws)
      → Matches invoice_types (invoice_fields b i f) ws
      → invoice_records b i ≡ ok rs
      → root_of_records b rs ≡ ok i.merkle_root
      → decode_invoice b v ≡ ok i
  unfolding decode_invoice invoice_fields
  decode_invoice-entries v f ws rs bits e
        (
          m3,
          (
            m4,
            (
              m8,
              (
                m10,
                (m12, (m30, (m32, (m38, (m39, (m40, (m42, (m44, (m46, (m50, (m240, _))))))))))),
              ),
            ),
          ),
        )
        made root =
      let at : (t : ℕ) → find_value t (entries_of invoice_types ws) ≡ slot t invoice_types ws =
        λ t. find_value-slot t invoice_types ws types-Rising in
      let (chain, read_chain, as_chain) =
        hash_field-read b laws _ i.chainhash _ valid.chainhash m3 in
      let (id, read_id, as_id) = hash_field-read b laws _ i.offer_id _ valid.offer_id m4 in
      let (time, read_time, as_time) =
        created_field-read b laws _ i.created_at _ valid.created_at m40 in
      let (hash, read_hash, as_hash) =
        hash_field-read b laws _ i.payment_hash _ valid.payment_hash m42 in
      let (expiry, read_expiry, as_expiry) =
        expiry_field-read b laws _ i.relative_expiry _ valid.relative_expiry m44 in
      let (sig, read_sig, as_sig) =
        signature_field-read b laws _ i.signature _ valid.signature m240 in
      let rooted : decode_merkle_root b (invoice_records b i) invoice_types
            (entries_of invoice_types ws)
          ≡ ok i.merkle_root =
        rw made (
          decode_merkle_root-known b laws rs i.merkle_root invoice_types ws types-member root
            valid.merkle_root) in
      rw
        (
          e,
          at inv_chain_type,
          at inv_offer_id_type,
          at inv_amount_type,
          at inv_node_id_type,
          at inv_quantity_type,
          at inv_payer_key_type,
          at inv_created_at_type,
          at inv_payment_hash_type,
          at inv_relative_expiry_type,
          at in_cltv_type,
          at inv_sig_type,
          at inv_feat_type,
          at inv_desc_type,
          at inv_payer_note_type,
          at inv_payer_info_type,
        )
        (rw
          (
            read_chain,
            read_id,
            tu64_field-read b laws _ i.amount _ valid.amount m8,
            key_field-read b laws _ i.node_id _ m30,
            tu64_field-read b laws _ i.quantity _ valid.quantity m32,
            key_field-read b laws _ i.payer_key _ m38,
            read_time,
            read_hash,
            read_expiry,
            uint64_field-read b laws _ i.cltv_expiry _ valid.cltv_expiry m46,
            read_sig,
            as_chain,
            as_id,
            encode_features_record-read b laws _ fs f _ valid.feature_bits bits m12,
            as_hash,
            text_field-read b laws _ i.description _ m10,
            text_field-read b laws _ i.payer_note _ m39,
            as_time,
            as_expiry,
            text_field-read b laws _ i.payer_info _ m50,
            as_sig,
          )
          (subst
            (λ x.
              (wrap (
                  decode_merkle_root b (invoice_records b (record i { features = x })) invoice_types
                    (entries_of invoice_types ws))
                >>= λ q. ok (record i { features = x; merkle_root = q }))
              ≡ ok i)
            valid.features
            (ap {B = Result Invoice} (λ r. wrap r >>= λ q. ok (record i { merkle_root = q }))
              rooted)))

  -- Where lnd's streams and element codecs read back what they wrote, the invoice's hashes, signature, integers, times and
  -- keys have the sizes that the encoding gives them, its features are a set of bits, and its merkle root is that of
  -- its records: decoding an invoice that was encoded gives the invoice.
  pub decode-encode_invoice :
      (v : Bytes) → HasRoot b i → encode_invoice b i ≡ ok v → decode_invoice b v ≡ ok i
  unfolding encode_invoice
  decode-encode_invoice v (rs, made, root) h =
      let (qs, made_too, streamed, written) =
        encode_records_stream-parts b (invoice_records b i) v h in
      let (f, bits, gathered) = invoice_records-parts qs made_too in
      let (ws, e, m) =
        decode_stream-Matches b.tlv laws.streams invoice_types (invoice_fields b i f) v
          (invoice_fields-AreFields f bits) (rw gathered at streamed) (rw gathered at written) in
      decode_invoice-entries v f ws rs bits e m made root
