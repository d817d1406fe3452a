-- ===== src/Lnwire/Merkle/Leaves.antt =====
-- `CreateTLVLeaves` and `CreateTLVBranches`: one leaf pair and one branch for each record that is
-- not a signature.
use mathlib.Core.List.{append-nil, append_assoc}
use mathlib.Core.Path.{ap₂}
use boltnd.Prelude.{
  ◌+◌, ◌%◌, ◌≡◌, refl, ◌∙◌, not, List, [], ◌∷◌, ◌++◌, map, length, select, arith, Bytes, Bool-cases,
  inl, inr,
}
use boltnd.Prelude.Errors.{
  Result, ok, err, wrap, wrap-eq-ok, >>=-eq-ok, >>=-cong, ◌>>=◌, wrapped, odd_leaf_nodes,
}
use boltnd.Lnwire.Tlv.{Record}
use boltnd.Lnwire.Merkle.{
  Leaf, Branch, is_signature_tlv, encode_records, leaf_pairs, create_leaf_pair, create_tlv_leaves,
  create_tlv_branches, branch_pairs, branch_of, leaf_hash, tlv_tag, nonce_tag,
}

-- The records that are not signatures.
abbrev pub unsigned : List Record → List Record
unsigned = select (λ r. not (is_signature_tlv r))

abbrev pub flatten : List Bytes → Bytes
flatten [] = []
flatten (b ∷ bs) = b ++ flatten bs

-- The list holds what the encoder writes for each record in turn.
abbrev pub Encodes : (Record → Result Bytes) → List Record → List Bytes → Type 0
Encodes encode [] [] = Unit
Encodes encode (r ∷ rs) (b ∷ bs) = (encode r ≡ ok b) × Encodes encode rs bs
Encodes encode _ _ = ⊥

module _ (encode : Record → Result Bytes) where
  pub encode_records-unsigned :
      (rs : List Record) (encoded : List Bytes) (all_tlvs : Bytes)
      → encode_records encode rs encoded all_tlvs
        ≡ encode_records encode (unsigned rs) encoded all_tlvs
  unfolding encode_records
  encode_records-unsigned [] encoded all_tlvs = refl
  encode_records-unsigned (r ∷ rs) encoded all_tlvs = elim (Bool-cases (is_signature_tlv r)) [
    | inl s ↦ rw s (encode_records-unsigned rs encoded all_tlvs)
    | inr u ↦ rw u (
        rw u (
          >>=-cong (wrap (encode r)) _ _
            λ b. encode_records-unsigned rs (encoded ++ b ∷ []) (all_tlvs ++ b)))
  ]

  encode_records-Encodes :
      (rs : List Record) (encoded : List Bytes) (all_tlvs : Bytes) (p : List Bytes × Bytes)
      → encode_records encode rs encoded all_tlvs ≡ ok p
      → (bs : List Bytes) × Encodes encode (unsigned rs) bs
        × (p ≡ (encoded ++ bs, all_tlvs ++ flatten bs))
  unfolding encode_records
  encode_records-Encodes [] encoded all_tlvs p h = ([], tt, rw (append-nil, append-nil) (cc))
  encode_records-Encodes (r ∷ rs) encoded all_tlvs p h = elim (Bool-cases (is_signature_tlv r)) [
    | inl s ↦ rw s (encode_records-Encodes rs encoded all_tlvs p (rw s at h))
    | inr u ↦
        rw u
          let (b, eb, rest) = >>=-eq-ok (wrap (encode r)) _ (rw u at h) in
            let (bs, es, e) =
              encode_records-Encodes rs (encoded ++ b ∷ []) (all_tlvs ++ b) p rest in
            (
              b ∷ bs,
              (wrap-eq-ok (encode r) eb, es),
              e ∙ ap₂ (λ x y. (x, y)) (append_assoc encoded _ bs) (append_assoc all_tlvs b _),
            )
  ]

  encode_records_of-Encodes :
      (rs : List Record) (bs encoded : List Bytes) (all_tlvs : Bytes)
      → Encodes encode (unsigned rs) bs
      → encode_records encode rs encoded all_tlvs ≡ ok (encoded ++ bs, all_tlvs ++ flatten bs)
  unfolding encode_records
  encode_records_of-Encodes [] [] encoded all_tlvs h = rw (append-nil, append-nil)
  encode_records_of-Encodes [] (b ∷ bs) encoded all_tlvs h = absurd h
  encode_records_of-Encodes (r ∷ rs) bs encoded all_tlvs h =
      elim (Bool-cases (is_signature_tlv r)) [
        | inl s ↦ rw s (encode_records_of-Encodes rs bs encoded all_tlvs (rw s at h))
        | inr u ↦ rw u (keep bs (rw u at h) (encode_records_of-Encodes rs))
      ]
    where
      keep :
          (bs : List Bytes)
          → Encodes encode (r ∷ unsigned rs) bs
          → ((bs encoded : List Bytes) (all_tlvs : Bytes)
              → Encodes encode (unsigned rs) bs
              → encode_records encode rs encoded all_tlvs
                ≡ ok (encoded ++ bs, all_tlvs ++ flatten bs))
          → (wrap (encode r) >>= λ b. encode_records encode rs (encoded ++ b ∷ []) (all_tlvs ++ b))
            ≡ ok (encoded ++ bs, all_tlvs ++ flatten bs)
      keep [] h ih = absurd h
      keep (b ∷ bs) h ih = rw h.0 (
          ih bs (encoded ++ b ∷ []) (all_tlvs ++ b) h.1
          ∙ ap₂ (λ x y. ok (x, y)) (append_assoc encoded _ bs) (append_assoc all_tlvs b _))

-- The leaves that are made are the pairs, for each record that is not a signature in the sorted
-- order, of a leaf over its encoding and a nonce leaf whose tag holds all the encodings.
pub create_tlv_leaves-pairs :
    (sort_records : List Record → List Record) (encode : Record → Result Bytes) (rs : List Record)
    {leaves : List Leaf}
    → create_tlv_leaves sort_records encode rs ≡ ok leaves
    → (bs : List Bytes) × Encodes encode (unsigned (sort_records rs)) bs
      × (leaves ≡ leaf_pairs (flatten bs) bs)
unfolding create_tlv_leaves
create_tlv_leaves-pairs sort_records encode rs h =
    let (p, e, made) = >>=-eq-ok (encode_records encode (sort_records rs) [] []) _ h in
    let (bs, es, q) = encode_records-Encodes encode (sort_records rs) [] [] p e in (bs, es, cc)

-- Where every record that is not a signature can be encoded, the pairs are made.
pub create_tlv_leaves_of-Encodes :
    (sort_records : List Record → List Record) (encode : Record → Result Bytes) (rs : List Record)
    (bs : List Bytes)
    → Encodes encode (unsigned (sort_records rs)) bs
    → create_tlv_leaves sort_records encode rs ≡ ok (leaf_pairs (flatten bs) bs)
unfolding create_tlv_leaves
create_tlv_leaves_of-Encodes sort_records encode rs bs h =
    rw (encode_records_of-Encodes encode (sort_records rs) bs [] [] h)

pub length-leaf_pairs :
    (all_tlvs : Bytes) (bs : List Bytes) → length (leaf_pairs all_tlvs bs) ≡ length bs + length bs
unfolding leaf_pairs create_leaf_pair
length-leaf_pairs all_tlvs [] = omega arith
length-leaf_pairs all_tlvs (b ∷ bs) = omega (arith, length-leaf_pairs all_tlvs bs)

module _ (tagged_hash : Bytes → Bytes → Bytes) where
  -- The branch over the leaf pair of one encoded record.
  abbrev pub record_branch : Bytes → Bytes → Branch
  record_branch all_tlvs b =
      branch_of (tagged_hash tlv_tag b) (tagged_hash (nonce_tag ++ all_tlvs) b)

  branch_pairs-leaf_pairs :
      (all_tlvs : Bytes) (bs : List Bytes)
      → branch_pairs tagged_hash (leaf_pairs all_tlvs bs) ≡ ok (map (record_branch all_tlvs) bs)
  unfolding branch_pairs leaf_pairs create_leaf_pair leaf_hash
  branch_pairs-leaf_pairs all_tlvs [] = refl
  branch_pairs-leaf_pairs all_tlvs (b ∷ bs) = rw (branch_pairs-leaf_pairs all_tlvs bs)

  -- From leaf pairs `create_tlv_branches` returns one branch for each record.
  pub create_tlv_branches-leaf_pairs :
      (all_tlvs : Bytes) (bs : List Bytes)
      → create_tlv_branches tagged_hash (leaf_pairs all_tlvs bs)
        ≡ ok (map (record_branch all_tlvs) bs)
  unfolding create_tlv_branches
  create_tlv_branches-leaf_pairs all_tlvs bs =
      rw branch_pairs-leaf_pairs (ground (arith, length-leaf_pairs all_tlvs bs))

  branch_pairs-even :
      (leaves : List Leaf)
      → length leaves % 2 ≡ 0
      → (bs : List Branch) × (branch_pairs tagged_hash leaves ≡ ok bs)
        × (length bs + length bs ≡ length leaves)
  unfolding branch_pairs
  branch_pairs-even [] h = ([], refl, omega arith)
  branch_pairs-even (l ∷ []) h = absurd (omega arith)
  branch_pairs-even (l ∷ n ∷ rest) h =
      let (bs, e, k) = branch_pairs-even rest (omega arith) in
      (branch_of (leaf_hash tagged_hash l) (leaf_hash tagged_hash n) ∷ bs, rw e, omega arith)

  -- An odd number of leaves is the error, and any even number gives half as many branches.
  pub create_tlv_branches_total :
      (leaves : List Leaf)
      → (length leaves % 2 ≡ 1
          → create_tlv_branches tagged_hash leaves ≡ err (wrapped odd_leaf_nodes))
        × (length leaves % 2 ≡ 0
            → (bs : List Branch) × (create_tlv_branches tagged_hash leaves ≡ ok bs)
              × (length bs + length bs ≡ length leaves))
  unfolding create_tlv_branches
  create_tlv_branches_total leaves = (
    λ h. ground arith,
    λ h. let (bs, e, k) = branch_pairs-even leaves h in (bs, ground (arith), k),
  )
