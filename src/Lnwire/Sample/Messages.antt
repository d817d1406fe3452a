-- ===== src/Lnwire/Sample/Messages.antt =====
-- Concrete functions for the messages' encodings, for runs, and that they have the properties relied on:
-- an integer is written as one number, a record as its type, its length and its value.
use mathlib.Core.List.Perm
use mathlib.Core.List.{append-nil}
use boltnd.Prelude.{
  ℕ, zero, suc, ◌+◌, ◌/◌, ◌%◌, ◌≤◌, ◌≡◌, refl, sym, ap, ◌∙◌, true, List, [], ◌∷◌, ◌++◌, length,
  length-append, take, drop, ◌==◌, All, Bytes, if◌then◌else◌, arith,
}
use boltnd.Prelude.Bytes.{bytes_eq}
use boltnd.Prelude.Errors.{Result, ok, err, foreign, ◌>>=◌, ok-injective, >>=-eq-ok}
use boltnd.Lnwire.Tlv.{Record, Tlv}
use boltnd.Lnwire.Bolt12.{Bolt12, copy_into}
use boltnd.Lnwire.Bolt12.Fields.{Sized, Holds, Streams}
use boltnd.Lnwire.Bolt12.Values.{Reads}
use boltnd.Lnwire.Sample.{sample, read_all, read_bytes}
use boltnd.Lnwire.Sample.Laws.{write_key-parts, read_bytes_all}

abbrev pub write_plain : List Record → Result Bytes
write_plain [] = ok []
write_plain (r ∷ rs) = do v ← r.value; rest ← write_plain rs; ok (r.tlv_type ∷ r.size ∷ (v ++ rest))

abbrev pub plain : Tlv
plain = record sample { encode_stream = write_plain }

abbrev pub bytes32 : ℕ → Bytes
bytes32 n =
    n ∷ 2 ∷ 3 ∷ 4 ∷ 5 ∷ 6 ∷ 7 ∷ 8 ∷ 9 ∷ 10 ∷ 11 ∷ 12 ∷ 13 ∷ 14 ∷ 15 ∷ 16 ∷ 17 ∷ 18 ∷ 19 ∷ 20 ∷ 21
    ∷ 22 ∷ 23 ∷ 24 ∷ 25 ∷ 26 ∷ 27 ∷ 28 ∷ 29 ∷ 30 ∷ 31 ∷ 32 ∷ []

abbrev pub sum : Bytes → ℕ
sum [] = 0
sum (n ∷ v) = n + sum v

abbrev pub only : ℕ → Bytes → Result Bytes
only n v = if length v == n then ok v else err (foreign 7)

abbrev pub first_byte : Bytes → Result ℕ
first_byte [] = err (foreign 8)
first_byte (n ∷ v) = ok n

-- A key is its x coordinate behind a 2, and a signature verifies if it begins as the digest does.
abbrev pub messages : Bolt12
messages = record {
  tlv = plain;
  e_tuint64 = λ n. ok (n ∷ []);
  size_tuint64 = λ n. 1;
  d_tuint64 = λ l v. first_byte v;
  e_uint64 = λ n. ok (copy_into 8 (n ∷ []));
  d_uint64 = first_byte;
  d_bytes32 = only 32;
  d_bytes64 = only 64;
  seconds = λ d. d / 1000000000;
  features_encode = λ fs. ok fs;
  features_decode = λ v. ok v;
  serialize_pub_key = drop 1;
  parse_pub_key = λ x. ok (2 ∷ x);
  parse_signature = only 64;
  verify = λ sig digest key. bytes_eq (take 1 sig) (take 1 digest);
  make_hash = only 32;
  tagged_hash = λ tag v. copy_into 32 ((sum tag + sum v) % 251 ∷ []);
  map_order = λ es. es;
}

read_record :
    (r : Record) (v rest : Bytes) (n : ℕ) (es : List (ℕ × Bytes))
    → length v ≡ r.size
    → read_all n rest ≡ ok es
    → read_all (suc n) (r.tlv_type ∷ r.size ∷ (v ++ rest)) ≡ ok ((r.tlv_type, v) ∷ es)
read_record r v rest n es size e = rw (read_bytes_all r.size v rest (sym size), e)

read_all_back :
    (rs : List Record) (b : Bytes) (n : ℕ)
    → All Sized rs
    → write_plain rs ≡ ok b
    → length b ≤ n
    → (es : List (ℕ × Bytes)) × (read_all n b ≡ ok es) × Holds rs es
read_all_back [] b n sized h fuel = rw (← ok-injective h) ([], refl, tt)
read_all_back (r ∷ rs) b zero sized h fuel =
    let (v, value, h₁) = >>=-eq-ok r.value _ h in
    let (rest, later, made) = >>=-eq-ok (write_plain rs) _ h₁ in
    absurd (some_left (rw (← ok-injective made) at fuel))
  where
    some_left : {m : ℕ} → suc m ≤ 0 → ⊥
    some_left l = omega arith
read_all_back (r ∷ rs) b (suc n) sized h fuel =
    let (v, value, h₁) = >>=-eq-ok r.value _ h in
    let (rest, later, made) = >>=-eq-ok (write_plain rs) _ h₁ in
    let same = ok-injective made in
    let short : length rest ≤ n = omega (arith, ap length same, length-append v rest) in
    let (es, e, k) = read_all_back rs rest n sized.1 later short in
    (
      (r.tlv_type, v) ∷ es,
      ap (read_all (suc n)) (sym same) ∙ read_record r v rest n es (sized.0 v value) e,
      (refl, value, k),
    )

pub plain-Streams : Streams plain
plain-Streams = record {
  reads_back =
      λ known rs b sized made written. read_all_back rs b (length b) sized written (omega arith);
}

only_same : (n : ℕ) (v : Bytes) → length v ≡ n → only n v ≡ ok v
only_same n v h = let e : (length v == n) ≡ true = ground arith in rw e

pub messages-Reads : Reads messages
unfolding copy_into
messages-Reads = record {
  streams = plain-Streams;
  tuint64 = λ n v low high e. rw (← ok-injective e) (omega arith, omega arith, refl, refl);
  uint64 = λ n v high e. rw (← ok-injective e) (refl, refl);
  pub_key = λ k v e.
      let (same, size) = write_key-parts k v e in (sym size, rw same (read_all_key v size));
  bytes32 = only_same 32;
  bytes64 = only_same 64;
  make_hash = only_same 32;
  features = λ fs v rising e. rw (← ok-injective e);
  seconds = λ n high. omega arith;
  map_order = λ es. Perm.refl es;
}
  where
    read_all_key : (v : Bytes) → 33 ≡ length v → read_bytes 33 v ≡ ok (v, [])
    read_all_key v size = rw (append-nil v) at (read_bytes_all 33 v [] size)
