-- ===== src/Lnwire/Merkle/Commitment.antt =====
-- What the merkle root commits to: the records that are no signatures, in type order.
use mathlib.Core.List.{Perm}
use mathlib.Core.List.Perm
use mathlib.Core.HLevel.{¬_prop}
use boltnd.Prelude.{ℕ, ◌≡◌, refl, sym, ap, ◌∙◌, List, [], ◌∷◌, map, length, arith, Bytes, not, ◌==◌}
use boltnd.Prelude.Errors.{
  Result, ok, err, wrap, wrap-eq-ok, >>=-eq-ok, ◌>>=◌, ◌>>◌, guard, no_tlvs,
}
use boltnd.Lnwire.Tlv.{Record}
use boltnd.Lnwire.Merkle.{
  Leaf, encode_tlv, create_tlv_leaves, create_tlv_branches, calculate_root, merkle_root,
  branch_hash, leaf_pairs, create_leaf_pair,
}
use boltnd.Lnwire.Merkle.Leaves.{
  unsigned, flatten, Encodes, record_branch, create_tlv_leaves-pairs, create_tlv_leaves_of-Encodes,
  create_tlv_branches-leaf_pairs, encode_records-unsigned,
}
use boltnd.Lnwire.Merkle.Rising.{
  Sorts, Distinct, Rising, Rising-of_Distinct, Rising-eq, select-perm, select-Pairwise,
}
use boltnd.Lnwire.Merkle.Root.{Tree, tips, top, calculate_root-tree}

module _ (make_hash : Bytes → Result Bytes) (tagged_hash : Bytes → Bytes → Bytes) where
  -- What `merkle_root` does with the leaves.
  abbrev root_of_leaves : List Leaf → Result Bytes
  root_of_leaves leaves = do
    guard (not (length leaves == 0)) no_tlvs
    branches ← wrap (create_tlv_branches tagged_hash leaves)
    hash ← calculate_root tagged_hash branches
    make_hash hash

  -- The same for the leaf pairs of a list of encodings.
  abbrev root_of : List Bytes → Result Bytes
  root_of [] = err no_tlvs
  root_of (b ∷ bs) =
      calculate_root tagged_hash (map (record_branch tagged_hash (flatten (b ∷ bs))) (b ∷ bs))
      >>= make_hash

  root_of_leaves-pairs :
      (bs : List Bytes) → root_of_leaves (leaf_pairs (flatten bs) bs) ≡ root_of bs
  root_of_leaves-pairs [] = unfold leaf_pairs in refl
  root_of_leaves-pairs (b ∷ bs) =
      rw create_tlv_branches-leaf_pairs (unfold leaf_pairs create_leaf_pair in ground arith)

module _ (sort_records : List Record → List Record) (write_var_int : ℕ → Result Bytes)
    (make_hash : Bytes → Result Bytes) (tagged_hash : Bytes → Bytes → Bytes) where
  -- A root that is returned is the hash at the top of a binary tree whose tips are exactly one
  -- branch for each record that is not a signature.
  pub merkle_root-tree :
      (rs : List Record) (root : Bytes)
      → merkle_root tagged_hash sort_records write_var_int make_hash rs ≡ ok root
      → (bs : List Bytes) × (t : Tree) × Encodes
          (encode_tlv write_var_int)
          (unsigned (sort_records rs))
          bs
        × Perm (tips t) (map (record_branch tagged_hash (flatten bs)) bs)
        × (make_hash (branch_hash tagged_hash (top tagged_hash t)) ≡ ok root)
  unfolding merkle_root
  merkle_root-tree rs root h =
      let (leaves, e, rest) =
        >>=-eq-ok (wrap (create_tlv_leaves sort_records (encode_tlv write_var_int) rs)) _ h in
      let (bs, es, q) =
        create_tlv_leaves-pairs sort_records (encode_tlv write_var_int) rs (wrap-eq-ok _ e) in
      let (t, p, r) = of_encodings bs (
        sym (root_of_leaves-pairs make_hash tagged_hash bs)
        ∙ ap (root_of_leaves make_hash tagged_hash) (sym q)
        ∙ rest) in
      (bs, t, es, p, r)
    where
      of_encodings :
          (bs : List Bytes)
          → root_of make_hash tagged_hash bs ≡ ok root
          → (t : Tree) × Perm (tips t) (map (record_branch tagged_hash (flatten bs)) bs)
            × (make_hash (branch_hash tagged_hash (top tagged_hash t)) ≡ ok root)
      of_encodings [] h = cc
      of_encodings (b ∷ bs) h =
          let (t, e, p) =
            calculate_root-tree tagged_hash _
              (map (record_branch tagged_hash (flatten (b ∷ bs))) bs) in
          (t, p, rw e at h)

  -- With no record that is not a signature, the error is that of an empty tree.
  pub merkle_root-no_tlvs :
      (rs : List Record)
      → unsigned (sort_records rs) ≡ []
      → merkle_root tagged_hash sort_records write_var_int make_hash rs ≡ err no_tlvs
  unfolding merkle_root
  merkle_root-no_tlvs rs none_left =
      rw
        (create_tlv_leaves_of-Encodes sort_records (encode_tlv write_var_int) rs []
          (rw none_left tt))
        (root_of_leaves-pairs make_hash tagged_hash [])

  -- Where every record that is not a signature can be encoded, and there is one, `merkle_root` comes back
  -- with what `make_hash` makes of a computed root.
  pub merkle_root_total :
      (rs : List Record) (b : Bytes) (bs : List Bytes)
      → Encodes (encode_tlv write_var_int) (unsigned (sort_records rs)) (b ∷ bs)
      → (root : Bytes) × (merkle_root tagged_hash sort_records write_var_int make_hash rs
          ≡ make_hash root)
  unfolding merkle_root
  merkle_root_total rs b bs h =
      let record_of = record_branch tagged_hash (flatten (b ∷ bs)) in
      let (t, e, p) = calculate_root-tree tagged_hash (record_of b) (map record_of bs) in
      rw (create_tlv_leaves_of-Encodes sort_records (encode_tlv write_var_int) rs (b ∷ bs) h) (
        branch_hash tagged_hash (top tagged_hash t),
        root_of_leaves-pairs make_hash tagged_hash (b ∷ bs) ∙ rw e,
      )

  create_tlv_leaves-unsigned :
      Sorts sort_records
      → (rs ss : List Record) → Distinct (unsigned rs)
      → Perm (unsigned rs) (unsigned ss)
      → create_tlv_leaves sort_records (encode_tlv write_var_int) rs
        ≡ create_tlv_leaves sort_records (encode_tlv write_var_int) ss
  unfolding create_tlv_leaves
  create_tlv_leaves-unsigned sorts rs ss d p = rw (
    encode_records-unsigned (encode_tlv write_var_int) (sort_records rs) [] [],
    encode_records-unsigned (encode_tlv write_var_int) (sort_records ss) [] [],
    same,
  )
    where
      sorted-perm : (ts : List Record) → Perm (unsigned (sort_records ts)) (unsigned ts)
      sorted-perm ts = select-perm _ (sorts.perm ts)

      sorted-Rising :
          (ts : List Record) → Distinct (unsigned ts) → Rising (unsigned (sort_records ts))
      sorted-Rising ts d' =
          Rising-of_Distinct _ (select-Pairwise _ _ _ (sorts.ordered ts))
            (Perm.pairwise (λ a b. ¬_prop) (λ x y ne e. ne (sym e)) (Perm.symm (sorted-perm ts)) d')

      same : unsigned (sort_records rs) ≡ unsigned (sort_records ss)
      same =
          Rising-eq _ _ (sorted-Rising rs d)
            (sorted-Rising ss (Perm.pairwise (λ a b. ¬_prop) (λ x y ne e. ne (sym e)) p d))
            (Perm.trans (sorted-perm rs) (Perm.trans p (Perm.symm (sorted-perm ss))))

  -- Where sorting gives the same records in the order of their types, the root depends on nothing
  -- but the set of the records that are no signatures: neither the order of the records nor any
  -- signature changes it, if no two of these records have one type.
  pub merkle_root-unsigned :
      Sorts sort_records
      → (rs ss : List Record) → Distinct (unsigned rs)
      → Perm (unsigned rs) (unsigned ss)
      → merkle_root tagged_hash sort_records write_var_int make_hash rs
        ≡ merkle_root tagged_hash sort_records write_var_int make_hash ss
  unfolding merkle_root
  merkle_root-unsigned sorts rs ss d p = rw (create_tlv_leaves-unsigned sorts rs ss d p)
