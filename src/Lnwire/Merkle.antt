-- ===== src/Lnwire/Merkle.antt =====
-- lnwire/bolt12_merkle.go: the merkle tree over the tlv records of a bolt 12 message.
-- The functions of the tlv, chainhash and lntypes packages are arguments; a hash is its bytes.
pub mod Leaves
pub mod Order
pub mod Root
pub mod Rising
pub mod Commitment
pub mod Unknown
mod Runs
use Prim.Native.Nat.{compare, Ordering}
use boltnd.Prelude.{
  ℕ, zero, suc, ◌%◌, Bool, true, false, not, ◌&&◌, List, [], ◌∷◌, ◌++◌, leb, ◌==◌, length, Bytes,
  if◌then◌else◌,
}
use boltnd.Prelude.Bytes.{codes}
use boltnd.Lnwire.Tlv.{Record}
use boltnd.Prelude.Errors.{
  Result, ok, err, panic, stuck, wrapped, wrap, odd_leaf_nodes, no_tlvs, ◌>>=◌, ◌>>◌, guard,
}

abbrev pub signature_field_start : ℕ
signature_field_start = 240

abbrev pub signature_field_end : ℕ
signature_field_end = 1000

abbrev pub tlv_tag : Bytes
tlv_tag = codes "LnLeaf"

abbrev pub nonce_tag : Bytes
nonce_tag = codes "LnAll"

abbrev pub branch_tag : Bytes
branch_tag = codes "LnBranch"

pub record Leaf : Type 0 where
  pub tag : Bytes
  pub value : Bytes

pub record Branch : Type 0 where
  pub left : Bytes
  pub right : Bytes

unfoldable pub is_signature_tlv : Record → Bool
is_signature_tlv r = leb signature_field_start r.tlv_type && leb r.tlv_type signature_field_end

-- The argument is tlv.WriteVarInt, by what it writes.
unfoldable pub encode_tlv : (ℕ → Result Bytes) → Record → Result Bytes
encode_tlv write_var_int r = do
  t ← wrap (write_var_int r.tlv_type)
  l ← wrap (write_var_int r.size)
  v ← wrap r.value
  ok (t ++ l ++ v)

unfoldable pub create_leaf_pair : Bytes → Bytes → Leaf × Leaf
create_leaf_pair tlv all_tlvs =
    (record { tag = tlv_tag; value = tlv }, record { tag = nonce_tag ++ all_tlvs; value = tlv })

-- The first loop of CreateTLVLeaves over `encodedTLVs` and `allTLVs`.
unfoldable pub encode_records :
    (Record → Result Bytes) → List Record → List Bytes → Bytes → Result (List Bytes × Bytes)
encode_records encode [] encoded all_tlvs = ok (encoded, all_tlvs)
encode_records encode (r ∷ rs) encoded all_tlvs =
    let skip = encode_records encode rs encoded all_tlvs in
    let keep =
      wrap (encode r) >>= λ b. encode_records encode rs (encoded ++ b ∷ []) (all_tlvs ++ b) in
    if is_signature_tlv r then skip else keep

-- The second loop: a pair of leaves for each encoded record.
unfoldable pub leaf_pairs : Bytes → List Bytes → List Leaf
leaf_pairs all_tlvs [] = []
leaf_pairs all_tlvs (tlv ∷ tlvs) =
    let (l, n) = create_leaf_pair tlv all_tlvs in l ∷ n ∷ leaf_pairs all_tlvs tlvs

-- The first argument is tlv.SortRecords.
unfoldable pub create_tlv_leaves :
    (List Record → List Record) → (Record → Result Bytes) → List Record → Result (List Leaf)
unfolding encode_records leaf_pairs
create_tlv_leaves sort_records encode records = do
  (encoded, all_tlvs) ← encode_records encode (sort_records records) [] []
  ok (leaf_pairs all_tlvs encoded)

-- bytes.Compare
unfoldable pub compare_bytes : Bytes → Bytes → Ordering
compare_bytes [] [] = Ordering.eq
compare_bytes [] (y ∷ ys) = Ordering.lt
compare_bytes (x ∷ xs) [] = Ordering.gt
compare_bytes (x ∷ xs) (y ∷ ys) = elim (compare x y) [
  | Ordering.eq ↦ compare_bytes xs ys
  | Ordering.lt ↦ Ordering.lt
  | Ordering.gt ↦ Ordering.gt
]

-- `bytes.Compare(leftHash[:], rightHash[:]) > 0`
unfoldable pub is_greater : Bytes → Bytes → Bool
unfolding compare_bytes
is_greater a b = elim (compare_bytes a b) [ Ordering.gt ↦ true | _ ↦ false ]

-- The nodes are given by their tagged hashes.
unfoldable pub order_nodes : Bytes → Bytes → Bytes × Bytes
order_nodes left right = if is_greater left right then (right, left) else (left, right)

-- `&TLVBranch{left: left, right: right}` after `orderNodes`.
unfoldable pub branch_of : Bytes → Bytes → Branch
unfolding order_nodes
branch_of a b = let (left, right) = order_nodes a b in record { left = left; right = right }

-- `tagged_hash` is chainhash.TaggedHash.
module _ (tagged_hash : Bytes → Bytes → Bytes) where
  unfoldable pub branch_hash : Branch → Bytes
  branch_hash b = tagged_hash branch_tag (b.left ++ b.right)

  unfoldable pub leaf_hash : Leaf → Bytes
  leaf_hash l = tagged_hash l.tag l.value

  -- The loop `i += 2`; `leaves[i+1]` of a last single leaf would be out of range.
  unfoldable pub branch_pairs : List Leaf → Result (List Branch)
  unfolding leaf_hash branch_of
  branch_pairs [] = ok []
  branch_pairs (l ∷ []) = panic
  branch_pairs (l ∷ n ∷ rest) = do
    branches ← branch_pairs rest
    ok (branch_of (leaf_hash l) (leaf_hash n) ∷ branches)

  unfoldable pub create_tlv_branches : List Leaf → Result (List Branch)
  create_tlv_branches leaves = do
    guard (length leaves % 2 == 0) (wrapped odd_leaf_nodes)
    branch_pairs leaves

  -- `for len(branches) != 1`: two from the front are combined into one at the back.
  unfoldable pub root_loop : ℕ → List Branch → Result Bytes
  unfolding branch_hash branch_of
  root_loop fuel [] = panic
  root_loop fuel (b ∷ []) = ok (branch_hash b)
  root_loop zero (a ∷ b ∷ rest) = stuck
  root_loop (suc fuel) (a ∷ b ∷ rest) =
      root_loop fuel (rest ++ branch_of (branch_hash a) (branch_hash b) ∷ [])

  -- Each round leaves one branch less.
  unfoldable pub calculate_root : List Branch → Result Bytes
  unfolding root_loop
  calculate_root branches = root_loop (length branches) branches

  -- `make_hash` is lntypes.MakeHash.
  unfoldable pub merkle_root :
      (List Record → List Record)
      → (ℕ → Result Bytes)
      → (Bytes → Result Bytes)
      → List Record
      → Result Bytes
  merkle_root sort_records write_var_int make_hash records = do
    leaves ← wrap (create_tlv_leaves sort_records (encode_tlv write_var_int) records)
    guard (not (length leaves == 0)) no_tlvs
    branches ← wrap (create_tlv_branches leaves)
    hash ← calculate_root branches
    make_hash hash

-- The value of the loop variable after `range`: the bytes of the last entry.
unfoldable pub last_bytes : List (ℕ × Bytes) → Bytes
last_bytes [] = []
last_bytes ((t, bytes) ∷ []) = bytes
last_bytes (e ∷ f ∷ rest) = last_bytes (f ∷ rest)

-- The loop of unknownRecordsFromParsed. An entry with no bytes is taken for one that was recognised. In
-- the Go version of go.mod a loop has one variable, which the closures that write the values share: they
-- write what it holds after the loop, `written`.
unfoldable pub unknown_records : Bytes → List (ℕ × Bytes) → List Record
unknown_records written [] = []
unknown_records written ((t, bytes) ∷ rest) =
    let records = unknown_records written rest in
    if length bytes == 0
    then records
    else record { tlv_type = t; size = length bytes; value = ok written } ∷ records

-- The map from tlv types to bytes is the list of its entries, in the order in which it is ranged over.
unfoldable pub unknown_records_from_parsed : List (ℕ × Bytes) → List Record
unfolding last_bytes unknown_records
unknown_records_from_parsed parsed_types = unknown_records (last_bytes parsed_types) parsed_types
