-- ===== src/Lnwire/Bolt12.antt =====
-- lnwire/bolt12_shared.go, lnwire/tu64.go and lnwire/bolt12_signature.go: what offers, invoice requests
-- and invoices share. A hash, a signature and an x-only key are their bytes.
pub mod Fields
pub mod Values
pub mod Streamed
pub mod Signed
use boltnd.Prelude.{
  ℕ, zero, suc, ◌+◌, ◌-◌, ◌*◌, ◌%◌, ◌^◌, Bool, true, false, not, ◌&&◌, Option, none, some, List, [],
  ◌∷◌, ◌++◌, map, length, leb, ◌==◌, Bytes, if◌then◌else◌,
}
use boltnd.Prelude.Bytes.{codes, bytes_eq}
use boltnd.Prelude.Errors.{Error, Result, ok, err, wrap, wrapped, invalid_sig, ◌>>=◌, ◌>>◌, guard}
use boltnd.Lnwire.Tlv.{PubKey, Record, Tlv}
use boltnd.Lnwire.Payload.{bytes_record}
use boltnd.Lnwire.Merkle.{merkle_root, unknown_records_from_parsed}

-- A lnwire.FeatureVector, by the bits that are set.
abbrev pub Features : Type 0
Features = List ℕ

-- What the messages use of lnd's packages tlv, lnwire and lntypes, of chainhash and of schnorr.
pub record Bolt12 : Type 0 where
  pub tlv : Tlv
  -- ETUint64T and SizeTUint64, and DTUint64 by the length and the bytes
  pub e_tuint64 : ℕ → Result Bytes
  pub size_tuint64 : ℕ → ℕ
  pub d_tuint64 : ℕ → Bytes → Result ℕ
  -- EUint64, and the decoders of a record for a uint64, a [32]byte, a [64]byte and a public key
  pub e_uint64 : ℕ → Result Bytes
  pub d_uint64 : Bytes → Result ℕ
  pub d_bytes32 : Bytes → Result Bytes
  pub d_bytes64 : Bytes → Result Bytes
  -- uint64(d.Seconds()) for a time.Duration, by its nanoseconds modulo 2^64
  pub seconds : ℕ → ℕ
  -- Encode and Decode of a feature vector
  pub features_encode : Features → Result Bytes
  pub features_decode : Bytes → Result Features
  -- SerializePubKey, ParsePubKey and ParseSignature of schnorr, and the method Verify of a signature
  pub serialize_pub_key : PubKey → Bytes
  pub parse_pub_key : Bytes → Result PubKey
  pub parse_signature : Bytes → Result Bytes
  pub verify : Bytes → Bytes → PubKey → Bool
  -- lntypes.MakeHash, chainhash.TaggedHash
  pub make_hash : Bytes → Result Bytes
  pub tagged_hash : Bytes → Bytes → Bytes
  -- the order in which a map with these entries is ranged over
  pub map_order : List (ℕ × Bytes) → List (ℕ × Bytes)

-- `copy(a[:], b)` for a new array of n bytes.
unfoldable pub copy_into : ℕ → Bytes → Bytes
copy_into zero b = []
copy_into (suc n) [] = 0 ∷ copy_into n []
copy_into (suc n) (x ∷ b) = x ∷ copy_into n b

-- lntypes.ZeroHash
unfoldable pub zero_hash : Bytes
unfolding copy_into
zero_hash = copy_into 32 []

-- `records = append(records, record)` for those of the optional records that there are.
unfoldable pub gather : List (Option Record) → List Record
gather [] = []
gather (none ∷ rs) = gather rs
gather (some r ∷ rs) = r ∷ gather rs

-- The records of a [32]byte or a [64]byte.
abbrev pub array_record : ℕ → ℕ → Bytes → Record
array_record n t b = record { tlv_type = t; size = n; value = ok b }

unfoldable pub hash_field : ℕ → Bytes → Option Record
unfolding zero_hash bytes_eq
hash_field t h = if bytes_eq h zero_hash then none else some (array_record 32 t h)

unfoldable pub text_field : ℕ → Bytes → Option Record
text_field t s = if length s == 0 then none else some (bytes_record t s)

unfoldable pub signature_field : ℕ → Option Bytes → Option Record
signature_field t none = none
signature_field t (some s) = some (array_record 64 t s)

-- time.Unix for the seconds of a uint64 taken as an int64. A time is its seconds; none is the zero
-- time, the start of the year 1.
abbrev pub zero_time_seconds : ℕ
zero_time_seconds = 2 ^ 64 - 62135596800

unfoldable pub unix : ℕ → Option ℕ
unix s = if s == zero_time_seconds then none else some s

-- What is left of a field's variable that the stream does not set: its zero value.
unfoldable pub read_or {ℓ} : {A : Type ℓ} → A → (Bytes → Result A) → Option Bytes → Result A
read_or a d none = ok a
read_or a d (some v) = d v

unfoldable pub time_if : Option Bytes → ℕ → Option ℕ
unfolding unix
time_if none s = none
time_if (some v) s = unix s

unfoldable pub signature_if : Option Bytes → Bytes → Option Bytes
signature_if none s = none
signature_if (some v) s = some s

-- The tlvMap of a decoded stream: the bytes of the types that have no record, and nothing for the others.
unfoldable pub member : ℕ → List ℕ → Bool
member t [] = false
member t (u ∷ us) = let rest = member t us in if t == u then true else rest

unfoldable pub tlv_map : List ℕ → List (ℕ × Bytes) → List (ℕ × Bytes)
unfolding member
tlv_map known [] = []
tlv_map known ((t, v) ∷ entries) = (t, if member t known then [] else v) ∷ tlv_map known entries

abbrev pub lightning_tag : Bytes
lightning_tag = codes "lightning"

abbrev pub offer_tag : Bytes
offer_tag = codes "offer"

abbrev pub invoice_tag : Bytes
invoice_tag = codes "invoice"

abbrev pub invoice_request_tag : Bytes
invoice_request_tag = codes "invoice_request"

abbrev pub signature_tag : Bytes
signature_tag = codes "signature"

module _ (b : Bolt12) where
  -- tu64Record
  abbrev pub tu64_record : ℕ → ℕ → Record
  tu64_record t n = record { tlv_type = t; size = b.size_tuint64 n; value = b.e_tuint64 n }

  unfoldable pub tu64_field : ℕ → ℕ → Option Record
  tu64_field t n = if n == 0 then none else some (tu64_record t n)

  -- decodeTU64; the length of the record is that of its bytes.
  unfoldable pub decode_tu64 : Bytes → Result ℕ
  decode_tu64 v =
      if leb 1 (length v) && leb (length v) 8
      then b.d_tuint64 (length v) v
      else err b.tlv.decoding_error

  -- A time as a truncated uint64.
  unfoldable pub time_field : ℕ → Option ℕ → Option Record
  time_field t none = none
  time_field t (some s) = some (tu64_record t s)

  -- A key, x-only.
  unfoldable pub x_only_field : ℕ → Option PubKey → Option Record
  unfolding copy_into
  x_only_field t none = none
  x_only_field t (some k) = some (array_record 32 t (copy_into 32 (b.serialize_pub_key k)))

  -- encodeFetauresRecord
  unfoldable pub encode_features_record : ℕ → Option Features → Result (Option Record)
  encode_features_record t none = ok none
  encode_features_record t (some []) = ok none
  encode_features_record t (some (f ∷ fs)) = do
    bytes ← wrap (b.features_encode (f ∷ fs))
    ok (some (bytes_record t bytes))

  -- decodeFeaturesRecord: the vector that is returned is not nil.
  unfoldable pub decode_features_record : Option Bytes → Result Features
  decode_features_record none = ok []
  decode_features_record (some v) = wrap (b.features_decode v)

  unfoldable pub hash_if : Option Bytes → Bytes → Result Bytes
  hash_if none h = ok zero_hash
  hash_if (some v) h = b.make_hash h

  unfoldable pub x_only_if : Option Bytes → Bytes → Result (Option PubKey)
  x_only_if none k = ok none
  x_only_if (some v) k = do key ← b.parse_pub_key k; ok (some key)

  -- MerkleRoot for the messages.
  unfoldable pub root_of_records : List Record → Result Bytes
  unfolding merkle_root
  root_of_records = merkle_root b.tagged_hash b.tlv.sort_records b.tlv.write_var_int b.make_hash

  -- decodeMerkleRoot, on what the method records returns, the known types and the stream's entries.
  unfoldable pub decode_merkle_root :
      Result (List Record) → List ℕ → List (ℕ × Bytes) → Result Bytes
  unfolding root_of_records tlv_map unknown_records_from_parsed
  decode_merkle_root populated known entries = do
    records ← wrap populated
    root ← wrap (
        root_of_records
          (records ++ unknown_records_from_parsed (b.map_order (tlv_map known entries))))
    wrap (b.make_hash root)

  -- NewStream and Encode of the stream.
  unfoldable pub encode_records_stream : Result (List Record) → Result Bytes
  encode_records_stream populated = do
    records ← wrap populated
    wrap (b.tlv.new_stream records)
    wrap (b.tlv.encode_stream records)

  -- signatureDigest
  unfoldable pub signature_digest : Bytes → Bytes → Bytes → Bytes
  signature_digest message_tag field_tag root =
      b.tagged_hash (lightning_tag ++ (message_tag ++ field_tag)) root

  -- validateSignature
  unfoldable pub validate_signature : Bytes → PubKey → Bytes → Result (Unit {0})
  validate_signature signature node_id digest = do
    sig ← wrap (b.parse_signature signature)
    guard (b.verify sig digest node_id) (wrapped invalid_sig)

  -- The check of an optional signature, which the messages' Validate ends with.
  unfoldable pub validate_optional : Option Bytes → PubKey → Bytes → Result (Unit {0})
  unfolding validate_signature
  validate_optional none node_id digest = ok tt
  validate_optional (some s) node_id digest = validate_signature s node_id digest
