-- ===== src/Lnwire/Sample/Laws.antt =====
-- The concrete functions have the properties that the proofs rely on.
use boltnd.Prelude.{
  ℕ, ◌≤◌, ◌≡◌, refl, sym, ap, List, [], ◌∷◌, ◌++◌, length, take_all, drop_all, length-append, leb,
  ◌==◌, Bool, Bytes, if◌then◌else◌, arith, Bool-cases, inl, inr, true, false,
}
use boltnd.Prelude.Errors.{ok, err, foreign, ok-injective}
use boltnd.Lnwire.Tlv.{PubKey, Record, ReadsBack, HasSizes}
use boltnd.Lnwire.Merkle.Rising.{Sorts}
use boltnd.Lnwire.Sample.{sample, write_key, read_bytes, insert_record, sort_records}
use mathlib.Core.Logic.Or
use mathlib.Core.List.{Perm, Pairwise, Pairwise-cons, Mem, mem-cons, not-mem-nil}
use mathlib.Core.List.Perm
use native.Mathlib.Bridge.{le_prop}
use native.Mathlib.Nat.{le_trans}

pub write_key-parts : (k : PubKey) (b : Bytes) → write_key k ≡ ok b → (k ≡ b) × (33 ≡ length b)
write_key-parts k b h = by_test k b (length k == 33) refl h
  where
    by_test :
        (k b : Bytes) (t : Bool)
        → (length k == 33) ≡ t
        → (if t then ok k else err (foreign 5)) ≡ ok b
        → (k ≡ b) × (33 ≡ length b)
    by_test k b true e h = let same : k ≡ b = ok-injective h in (same, rw (← same) (ground arith))
    by_test k b false e h = cc

pub read_bytes_all :
    (n : ℕ) (v rest : Bytes) → n ≡ length v → read_bytes n (v ++ rest) ≡ ok (v, rest)
read_bytes_all n v rest h =
    let fits : leb n (length (v ++ rest)) ≡ true = ground (arith, length-append v rest, h) in
    rw (fits, take_all n v rest h, drop_all n v rest h)

pub sample-ReadsBack : ReadsBack sample
sample-ReadsBack = record {
  pub_key = λ k b rest h.
      let (same, size) = write_key-parts k b h in rw (same) (read_bytes_all 33 b rest size);
  uint8 = λ n b rest fits h. rw (← ok-injective h);
  uint16 = λ n b rest fits h. rw (← ok-injective h) (ap ok (ap (λ m. (m, rest)) (omega arith)));
  var_bytes = λ v b rest h. rw (← ok-injective h) (read_bytes_all (length v) v rest refl);
}

pub sample-HasSizes : HasSizes sample
sample-HasSizes = record {
  pub_key = λ k b h. sym (write_key-parts k b h).1;
  uint8 = λ n b h. rw (← ok-injective h);
  uint16 = λ n b h. rw (← ok-injective h);
  var_bytes = λ v b h. rw (← ok-injective h);
}

insert_record-perm : (r : Record) (rs : List Record) → Perm (insert_record r rs) (r ∷ rs)
insert_record-perm r [] = Perm.refl _
insert_record-perm r (s ∷ rs) = elim (Bool-cases (leb r.tlv_type s.tlv_type)) [
  | inl t ↦ rw t (Perm.refl _)
  | inr f ↦ rw f (Perm.trans (Perm.cons s (insert_record-perm r rs)) (Perm.swap r s rs))
]

sort_records-perm : (rs : List Record) → Perm (sort_records rs) rs
sort_records-perm [] = Perm.refl _
sort_records-perm (r ∷ rs) =
    Perm.trans (insert_record-perm r (sort_records rs)) (Perm.cons r (sort_records-perm rs))

abbrev Below : ℕ → List Record → Type 0
Below n rs = (s : Record) → Mem s rs → n ≤ s.tlv_type

insert_record-Below :
    (n : ℕ) (r : Record) (rs : List Record)
    → n ≤ r.tlv_type
    → Below n rs
    → Below n (insert_record r rs)
insert_record-Below n r rs h k s m =
    Or.elim le_prop (mem-cons.0 ((Perm.mem_iff (insert_record-perm r rs)).0 m)) (λ e. rw e h) (k s)

below :
    (r s : Record) (rs : List Record)
    → r.tlv_type ≤ s.tlv_type
    → Below s.tlv_type rs
    → Below r.tlv_type (s ∷ rs)
below r s rs le h q m =
    Or.elim le_prop (mem-cons.0 m) (λ e. rw e le) (λ later. le_trans le (h q later))

insert_record-Pairwise :
    (r : Record) (rs : List Record)
    → Pairwise (λ r s. r.tlv_type ≤ s.tlv_type) rs
    → Pairwise (λ r s. r.tlv_type ≤ s.tlv_type) (insert_record r rs)
insert_record-Pairwise r [] h = Pairwise-cons.1 (λ s m. absurd (not-mem-nil m), h)
insert_record-Pairwise r (s ∷ rs) h = elim (Bool-cases (leb r.tlv_type s.tlv_type)) [
  | inl t ↦ rw t (Pairwise-cons.1 (below r s rs (ground (arith, t)) (Pairwise-cons.0 h).0, h))
  | inr f ↦ rw f (
      Pairwise-cons.1 (
        insert_record-Below s.tlv_type r rs (ground (arith, f)) (Pairwise-cons.0 h).0,
        insert_record-Pairwise r rs (Pairwise-cons.0 h).1,
      ))
]

pub sort_records-Sorts : Sorts sort_records
sort_records-Sorts = record { perm = sort_records-perm; ordered = sorted }
  where
    sorted : (rs : List Record) → Pairwise (λ r s. r.tlv_type ≤ s.tlv_type) (sort_records rs)
    sorted [] = Pairwise.nil
    sorted (r ∷ rs) = insert_record-Pairwise r (sort_records rs) (sorted rs)
