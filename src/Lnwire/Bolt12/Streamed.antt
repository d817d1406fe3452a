-- ===== src/Lnwire/Bolt12/Streamed.antt =====
-- The features, the merkle root and the stream of a message, written and read again.
use mathlib.Core.List.{append-nil}
use mathlib.Core.List.Perm
use boltnd.Prelude.{ℕ, ◌≡◌, refl, ap, true, Option, none, some, List, [], ◌∷◌, length, Bytes, All}
use boltnd.Prelude.Errors.{Result, ok, wrap, wrap-eq-ok, ok-injective, >>=-eq-ok}
use boltnd.Lnwire.Tlv.{Record}
use boltnd.Lnwire.Payload.{bytes_record}
use boltnd.Lnwire.Bolt12.{
  Bolt12, Features, encode_features_record, decode_features_record, member, tlv_map,
  root_of_records, decode_merkle_root, encode_records_stream,
}
use boltnd.Lnwire.Merkle.{unknown_records_from_parsed}
use boltnd.Lnwire.Bolt12.Fields.{
  Slots, entries_of, unknown_records_from_parsed_empty, tlv_map-AreEmpty, IsField, Match, Rising,
}
use boltnd.Lnwire.Bolt12.Values.{Reads}

module _ (b : Bolt12) (laws : Reads b) where
  pub encode_features_record-IsField :
      (t : ℕ) (fs : Features) (o : Option Record)
      → encode_features_record b t (some fs) ≡ ok o
      → IsField t o
  unfolding encode_features_record
  encode_features_record-IsField t [] o h = rw (← ok-injective h) tt
  encode_features_record-IsField t (f ∷ fs) o h =
      let (v, e, made) = >>=-eq-ok (wrap (b.features_encode (f ∷ fs))) _ h in
      rw (← ok-injective made) (refl, λ u e. rw (← ok-injective e))

  pub encode_features_record-read :
      (t : ℕ) (fs : Features) (o : Option Record) (w : Option Bytes)
      → Rising fs
      → encode_features_record b t (some fs) ≡ ok o
      → Match o w
      → decode_features_record b w ≡ ok fs
  unfolding encode_features_record decode_features_record
  encode_features_record-read t [] o w rising h m = absent w (rw (← ok-injective h) at m)
    where
      absent : (w : Option Bytes) → Match none w → decode_features_record b w ≡ ok []
      absent none m = refl
      absent (some v) m = absurd m
  encode_features_record-read t (f ∷ fs) o w rising h m =
      let (v, e, made) = >>=-eq-ok (wrap (b.features_encode (f ∷ fs))) _ h in
      present v (wrap-eq-ok (b.features_encode (f ∷ fs)) e) w (rw (← ok-injective made) at m)
    where
      present :
          (v : Bytes)
          → b.features_encode (f ∷ fs) ≡ ok v
          → (w : Option Bytes) → Match (some (bytes_record t v)) w
          → decode_features_record b w ≡ ok (f ∷ fs)
      present v e none m = absurd m
      present v e (some u) m = rw (← ok-injective m) (ap wrap (laws.features (f ∷ fs) v rising e))

  -- The root that a decoder calculates for the stream of a message is the root of its records.
  pub decode_merkle_root-known :
      (rs : List Record) (root : Bytes) (known : List ℕ) (ws : Slots known)
      → All (λ t. member t known ≡ true) known
      → root_of_records b rs ≡ ok root
      → length root ≡ 32
      → decode_merkle_root b (ok rs) known (entries_of known ws) ≡ ok root
  unfolding decode_merkle_root
  decode_merkle_root-known rs root known ws all_known e size =
      let entries = tlv_map known (entries_of known ws) in
      let none_left : unknown_records_from_parsed (b.map_order entries) ≡ [] =
        unknown_records_from_parsed_empty (b.map_order entries) (λ e m.
          tlv_map-AreEmpty known known ws all_known e
            ((Perm.mem_iff (laws.map_order entries)).0 m)) in
      rw (none_left, append-nil rs, e) (ap wrap (laws.make_hash root size))

-- A message that is encoded has records, and a stream of them.
pub encode_records_stream-parts :
    (b : Bolt12) (populated : Result (List Record)) (v : Bytes)
    → encode_records_stream b populated ≡ ok v
    → (rs : List Record) × (populated ≡ ok rs)
      × (b.tlv.new_stream rs ≡ ok tt)
      × (b.tlv.encode_stream rs ≡ ok v)
unfolding encode_records_stream
encode_records_stream-parts b populated v h =
    let (rs, e, h₁) = >>=-eq-ok (wrap populated) _ h in
    let (u, made, h₂) = >>=-eq-ok (wrap (b.tlv.new_stream rs)) _ h₁ in
    (
      rs,
      wrap-eq-ok populated e,
      wrap-eq-ok (b.tlv.new_stream rs) made,
      wrap-eq-ok (b.tlv.encode_stream rs) h₂,
    )
