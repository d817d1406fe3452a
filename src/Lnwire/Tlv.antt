-- ===== src/Lnwire/Tlv.antt =====
-- What the package uses of lnd's packages tlv and lnwire, btcec and schnorr: a record of functions,
-- and what the proofs rely on. A public key is its 33-byte compressed serialization.
use boltnd.Prelude.{ℕ, ◌<◌, ◌≡◌, Option, List, ◌++◌, length, Bytes}
use boltnd.Prelude.Errors.{Error, Result, ok}

abbrev pub PubKey : Type 0
PubKey = Bytes

-- A tlv.Record: what Type() and Size() return, and what Encode writes or fails with.
pub record Record : Type 0 where
  pub tlv_type : ℕ
  pub size : ℕ
  pub value : Result Bytes

pub record Tlv : Type 0 where
  -- WriteVarInt, SortRecords
  pub write_var_int : ℕ → Result Bytes
  pub sort_records : List Record → List Record
  -- NewStream and the method Encode of its stream
  pub new_stream : List Record → Result (Unit {0})
  pub encode_stream : List Record → Result Bytes
  -- The method DecodeWithParsedTypes of a stream for the types that are given: the types and the
  -- values that the input holds, in its order.
  pub decode_stream : List ℕ → Bytes → Result (List (ℕ × Bytes))
  -- The same for a stream one of whose records, of the type that is given, has a decoder of its own. That is called
  -- with the record's length and the stream's reader, and what it leaves in the reader is read on. Besides the
  -- other types' values, the length and the contents of the reader that the decoder was called with.
  pub decode_stream_with :
      List ℕ
      → ℕ
      → (ℕ → Bytes → Result Bytes)
      → Bytes
      → Result (Option (ℕ × Bytes) × List (ℕ × Bytes))
  -- EPubKey, EUint8, EUint16, EVarBytes, by what they write
  pub e_pub_key : PubKey → Result Bytes
  pub e_uint8 : ℕ → Result Bytes
  pub e_uint16 : ℕ → Result Bytes
  pub e_var_bytes : Bytes → Result Bytes
  -- DPubKey (of 33 bytes), DUint8, DUint16, DVarBytes, with the input that they leave
  pub d_pub_key : Bytes → Result (PubKey × Bytes)
  pub d_uint8 : Bytes → Result (ℕ × Bytes)
  pub d_uint16 : Bytes → Result (ℕ × Bytes)
  pub d_var_bytes : ℕ → Bytes → Result (Bytes × Bytes)
  -- NewTypeForDecodingErr
  pub decoding_error : Error

-- The decoders read what the encoders wrote, and leave the rest.
pub record ReadsBack (tlv : Tlv) : Type 0 where
  pub pub_key :
      (k : PubKey) (b rest : Bytes)
      → tlv.e_pub_key k ≡ ok b
      → tlv.d_pub_key (b ++ rest) ≡ ok (k, rest)
  pub uint8 :
      (n : ℕ) (b rest : Bytes)
      → n < 256
      → tlv.e_uint8 n ≡ ok b
      → tlv.d_uint8 (b ++ rest) ≡ ok (n, rest)
  pub uint16 :
      (n : ℕ) (b rest : Bytes)
      → n < 65536
      → tlv.e_uint16 n ≡ ok b
      → tlv.d_uint16 (b ++ rest) ≡ ok (n, rest)
  pub var_bytes :
      (v b rest : Bytes)
      → tlv.e_var_bytes v ≡ ok b
      → tlv.d_var_bytes (length v) (b ++ rest) ≡ ok (v, rest)

-- The encoders write a fixed number of bytes.
pub record HasSizes (tlv : Tlv) : Type 0 where
  pub pub_key : (k : PubKey) (b : Bytes) → tlv.e_pub_key k ≡ ok b → length b ≡ 33
  pub uint8 : (n : ℕ) (b : Bytes) → tlv.e_uint8 n ≡ ok b → length b ≡ 1
  pub uint16 : (n : ℕ) (b : Bytes) → tlv.e_uint16 n ≡ ok b → length b ≡ 2
  pub var_bytes : (v b : Bytes) → tlv.e_var_bytes v ≡ ok b → length b ≡ length v
