-- ===== src/Lnwire/Merkle/Unknown.antt =====
-- `unknownRecordsFromParsed`: the records of a decoded message that its decoder did not recognise.
use boltnd.Prelude.{
  ℕ, ◌≡◌, refl, List, [], ◌∷◌, ◌++◌, map, Bytes, Bool, not, length, select, ◌==◌, Bool-cases, inl,
  inr,
}
use boltnd.Prelude.Errors.{ok}
use boltnd.Lnwire.Tlv.{Record}
use boltnd.Lnwire.Merkle.{last_bytes, unknown_records, unknown_records_from_parsed}

abbrev pub has_bytes : ℕ × Bytes → Bool
has_bytes (t, bytes) = not (length bytes == 0)

-- A record of an entry's type and size that writes other bytes.
abbrev pub record_writing : Bytes → ℕ × Bytes → Record
record_writing written (t, bytes) = record { tlv_type = t; size = length bytes; value = ok written }

last_bytes-append :
    (t : ℕ) (bytes : Bytes) (xs : List (ℕ × Bytes)) → last_bytes (xs ++ (t, bytes) ∷ []) ≡ bytes
unfolding last_bytes
last_bytes-append t bytes [] = refl
last_bytes-append t bytes (x ∷ []) = refl
last_bytes-append t bytes (x ∷ y ∷ xs) = last_bytes-append t bytes (y ∷ xs)

unknown_records-select :
    (written : Bytes) (entries : List (ℕ × Bytes))
    → unknown_records written entries ≡ map (record_writing written) (select has_bytes entries)
unfolding unknown_records
unknown_records-select written [] = refl
unknown_records-select written ((t, bytes) ∷ entries) = elim (Bool-cases (length bytes == 0)) [
  | inl empty ↦ rw empty (unknown_records-select written entries)
  | inr filled ↦ rw (filled, unknown_records-select written entries)
]

-- Each entry with bytes becomes a record of its type and its size, and all these records write the bytes of
-- the entry that was ranged over last, not their own. An entry with no bytes becomes no record.
pub unknown_records_from_parsed-last :
    (t : ℕ) (bytes : Bytes) (xs : List (ℕ × Bytes))
    → unknown_records_from_parsed (xs ++ (t, bytes) ∷ [])
      ≡ map (record_writing bytes) (select has_bytes (xs ++ (t, bytes) ∷ []))
unfolding unknown_records_from_parsed
unknown_records_from_parsed-last t bytes xs =
    rw (last_bytes-append t bytes xs) (unknown_records-select bytes (xs ++ (t, bytes) ∷ []))
