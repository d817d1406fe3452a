-- ===== src/Lnwire/Merkle/Runs.antt =====
-- Runs of lnwire/bolt12_merkle.go on a few records, with a sum of bytes in the place of the tagged hash.
use mathlib.Core.Logic.Or
use mathlib.Core.HLevel.{¬_prop}
use mathlib.Core.List.{Perm, Pairwise, Pairwise-cons, mem-cons, not-mem-nil}
use mathlib.Core.List.Perm
use boltnd.Prelude.{ℕ, ◌+◌, ◌%◌, ◌≡◌, ◌≢◌, refl, List, [], ◌∷◌, ◌++◌, select, map, Bytes, arith}
use boltnd.Prelude.Errors.{Result, ok}
use boltnd.Lnwire.Tlv.{Record}
use boltnd.Lnwire.Merkle.{
  encode_tlv, is_signature_tlv, branch_hash, merkle_root, order_nodes, is_greater, compare_bytes,
  encode_records, create_leaf_pair, create_tlv_leaves, leaf_pairs, create_tlv_branches,
  branch_pairs, leaf_hash, unknown_records_from_parsed, branch_of, calculate_root, root_loop,
}
use boltnd.Lnwire.Merkle.Leaves.{unsigned, flatten, Encodes, record_branch}
use boltnd.Lnwire.Merkle.Unknown.{has_bytes, record_writing, unknown_records_from_parsed-last}
use boltnd.Lnwire.Merkle.Rising.{Distinct}
use boltnd.Lnwire.Merkle.Root.{Tree, tips, top}
use boltnd.Lnwire.Merkle.Commitment.{merkle_root-tree, merkle_root_total, merkle_root-unsigned}
use boltnd.Lnwire.Sample.{sort_records, write_byte}
use boltnd.Lnwire.Sample.Laws.{sort_records-Sorts}

abbrev sum : Bytes → ℕ
sum [] = 0
sum (b ∷ bs) = b + sum bs

abbrev sum_hash : Bytes → Bytes → Bytes
sum_hash tag v = (sum tag + sum v) % 251 ∷ []

abbrev make_hash : Bytes → Result Bytes
make_hash b = ok b

abbrev one_byte : ℕ → Record
one_byte t = record { tlv_type = t; size = 1; value = ok (7 ∷ []) }

-- A signature between two records.
abbrev signed : List Record
signed = one_byte 10 ∷ one_byte 240 ∷ one_byte 2 ∷ []

abbrev bare : List Record
bare = one_byte 2 ∷ one_byte 10 ∷ []

pair-Distinct : (r s : Record) → r.tlv_type ≢ s.tlv_type → Distinct (r ∷ s ∷ [])
pair-Distinct r s ne = Pairwise-cons.1 (
  λ q m. Or.elim ¬_prop (mem-cons.0 m) (λ e. rw e ne) (λ later. absurd (not-mem-nil later)),
  Pairwise-cons.1 (λ q m. absurd (not-mem-nil m), Pairwise.nil),
)

signed-unsigned : unsigned signed ≡ one_byte 10 ∷ one_byte 2 ∷ []
unfolding is_signature_tlv
signed-unsigned = refl

bare-unsigned : unsigned bare ≡ bare
unfolding is_signature_tlv
bare-unsigned = refl

root_of_signed : merkle_root sum_hash sort_records write_byte make_hash signed ≡ ok (231 ∷ [])
unfolding merkle_root encode_tlv is_signature_tlv create_tlv_leaves encode_records leaf_pairs
    create_leaf_pair create_tlv_branches branch_pairs leaf_hash branch_of order_nodes is_greater
    compare_bytes calculate_root root_loop branch_hash
root_of_signed = refl

merkle_root-unsigned_example :
    merkle_root sum_hash sort_records write_byte make_hash signed
    ≡ merkle_root sum_hash sort_records write_byte make_hash bare
merkle_root-unsigned_example =
    merkle_root-unsigned sort_records write_byte make_hash sum_hash sort_records-Sorts signed bare
      (rw signed-unsigned (pair-Distinct (one_byte 10) (one_byte 2) (λ e. omega arith)))
      (rw (signed-unsigned, bare-unsigned) (Perm.swap _ _ _))

merkle_root-tree_example :
    (bs : List Bytes) × (t : Tree) × Encodes
      (encode_tlv write_byte)
      (unsigned (sort_records signed))
      bs
    × Perm (tips t) (map (record_branch sum_hash (flatten bs)) bs)
    × (make_hash (branch_hash sum_hash (top sum_hash t)) ≡ ok (231 ∷ []))
merkle_root-tree_example =
    merkle_root-tree sort_records write_byte make_hash sum_hash signed (231 ∷ []) root_of_signed

abbrev signed_bytes : List Bytes
signed_bytes = (2 ∷ 1 ∷ 7 ∷ []) ∷ (10 ∷ 1 ∷ 7 ∷ []) ∷ []

signed-Encodes : Encodes (encode_tlv write_byte) (unsigned (sort_records signed)) signed_bytes
unfolding is_signature_tlv encode_tlv
signed-Encodes = (refl, (refl, tt))

merkle_root_total_example :
    (root : Bytes) × (merkle_root sum_hash sort_records write_byte make_hash signed
      ≡ make_hash root)
merkle_root_total_example =
    merkle_root_total sort_records write_byte make_hash sum_hash signed (2 ∷ 1 ∷ 7 ∷ [])
      ((10 ∷ 1 ∷ 7 ∷ []) ∷ []) signed-Encodes

only_signature : unsigned (sort_records (one_byte 240 ∷ [])) ≡ []
unfolding is_signature_tlv
only_signature = refl

unknown_records_from_parsed-last_example :
    unknown_records_from_parsed (((101, 1 ∷ []) ∷ []) ++ (99, 2 ∷ 3 ∷ []) ∷ [])
    ≡ map
        (record_writing (2 ∷ 3 ∷ []))
        (select has_bytes (((101, 1 ∷ []) ∷ []) ++ (99, 2 ∷ 3 ∷ []) ∷ []))
unknown_records_from_parsed-last_example =
    unknown_records_from_parsed-last 99 (2 ∷ 3 ∷ []) ((101, 1 ∷ []) ∷ [])
