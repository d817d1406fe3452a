-- ===== src/Lnwire/Sample.antt =====
-- Concrete functions in the place of lnd's tlv package, for runs: keys of 33 bytes, big-endian integers,
-- and records whose type and length are one byte each.
pub mod Laws
pub mod Messages
use boltnd.Prelude.{
  ℕ, zero, suc, ◌+◌, ◌*◌, ◌/◌, ◌%◌, Bool, true, false, Option, none, some, List, [], ◌∷◌, ◌++◌,
  length, take, drop, leb, ltb, ◌==◌, Bytes, if◌then◌else◌,
}
use boltnd.Prelude.Errors.{Error, Result, ok, err, text, foreign, ◌>>=◌, ◌>>◌}
use boltnd.Lnwire.Tlv.{PubKey, Record, Tlv}

abbrev pub insert_record : Record → List Record → List Record
insert_record r [] = r ∷ []
insert_record r (s ∷ rs) =
    let rest = insert_record r rs in if leb r.tlv_type s.tlv_type then r ∷ s ∷ rs else s ∷ rest

abbrev pub sort_records : List Record → List Record
sort_records [] = []
sort_records (r ∷ rs) = insert_record r (sort_records rs)

abbrev pub write_byte : ℕ → Result Bytes
write_byte n = if ltb n 253 then ok (n ∷ []) else ok (253 ∷ n / 256 ∷ n % 256 ∷ [])

abbrev pub write_all : List Record → Result Bytes
write_all [] = ok []
write_all (r ∷ rs) = do
  t ← write_byte r.tlv_type
  l ← write_byte r.size
  v ← r.value
  rest ← write_all rs
  ok (t ++ (l ++ (v ++ rest)))

abbrev pub read_bytes : ℕ → Bytes → Result (Bytes × Bytes)
read_bytes n b = if leb n (length b) then ok (take n b, drop n b) else err (foreign 1)

abbrev pub read_all : ℕ → Bytes → Result (List (ℕ × Bytes))
read_all n [] = ok []
read_all zero (t ∷ b) = err (foreign 2)
read_all (suc n) (t ∷ []) = err (foreign 2)
read_all (suc n) (t ∷ l ∷ b) = do
  (v, after) ← read_bytes l b
  rest ← read_all n after
  ok ((t, v) ∷ rest)

-- With a decoder for one type, which reads on from the record.
abbrev pub read_with :
    ℕ → ℕ → (ℕ → Bytes → Result Bytes) → Bytes → Result (Option (ℕ × Bytes) × List (ℕ × Bytes))
read_with n own decoder [] = ok (none, [])
read_with zero own decoder (t ∷ b) = err (foreign 2)
read_with (suc n) own decoder (t ∷ []) = err (foreign 2)
read_with (suc n) own decoder (t ∷ l ∷ b) = elim (t == own) [
  | true ↦ do
    after ← decoder l b
    (called, rest) ← read_with n own decoder after
    ok (some (l, b), rest)
  | false ↦ do
    (v, after) ← read_bytes l b
    (called, rest) ← read_with n own decoder after
    ok (called, (t, v) ∷ rest)
]

abbrev pub read_uint8 : Bytes → Result (ℕ × Bytes)
read_uint8 [] = err (foreign 3)
read_uint8 (n ∷ b) = ok (n, b)

abbrev pub read_uint16 : Bytes → Result (ℕ × Bytes)
read_uint16 [] = err (foreign 4)
read_uint16 (n ∷ []) = err (foreign 4)
read_uint16 (m ∷ n ∷ b) = ok (m * 256 + n, b)

abbrev pub write_key : PubKey → Result Bytes
write_key k = if length k == 33 then ok k else err (foreign 5)

abbrev pub sample : Tlv
sample = record {
  write_var_int = write_byte;
  sort_records = sort_records;
  new_stream = λ rs. ok tt;
  encode_stream = write_all;
  decode_stream = λ known b. read_all (length b) b;
  decode_stream_with = λ known own decoder b. read_with (length b) own decoder b;
  e_pub_key = write_key;
  e_uint8 = λ n. ok (n ∷ []);
  e_uint16 = λ n. ok (n / 256 ∷ n % 256 ∷ []);
  e_var_bytes = λ v. ok v;
  d_pub_key = read_bytes 33;
  d_uint8 = read_uint8;
  d_uint16 = read_uint16;
  d_var_bytes = read_bytes;
  decoding_error = foreign 6;
}

-- A key of 33 equal bytes.
abbrev pub key : ℕ → PubKey
key n = copies n 33
  where
    copies : ℕ → ℕ → Bytes
    copies n zero = []
    copies n (suc m) = n ∷ copies n m
