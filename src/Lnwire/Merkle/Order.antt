-- ===== src/Lnwire/Merkle/Order.antt =====
-- `orderNodes` gives one answer for a pair of hashes, whichever comes first.
use Prim.Native.Nat.{Ordering}
use boltnd.Prelude.{◌≡◌, refl, [], ◌∷◌, arith, Bytes, false}
use boltnd.Lnwire.Merkle.{compare_bytes, is_greater, order_nodes}

abbrev flip : Ordering → Ordering
flip Ordering.lt = Ordering.gt
flip Ordering.eq = Ordering.eq
flip Ordering.gt = Ordering.lt

compare_bytes-flip : (a b : Bytes) → compare_bytes b a ≡ flip (compare_bytes a b)
unfolding compare_bytes
compare_bytes-flip [] [] = refl
compare_bytes-flip [] (y ∷ ys) = refl
compare_bytes-flip (x ∷ xs) [] = refl
compare_bytes-flip (x ∷ xs) (y ∷ ys) = ground (arith, compare_bytes-flip xs ys)

compare_bytes-eq : (a b : Bytes) → compare_bytes a b ≡ Ordering.eq → a ≡ b
unfolding compare_bytes
compare_bytes-eq [] [] h = refl
compare_bytes-eq [] (y ∷ ys) h = cc
compare_bytes-eq (x ∷ xs) [] h = cc
compare_bytes-eq (x ∷ xs) (y ∷ ys) h = ground (arith, compare_bytes-eq xs ys)

-- Swapping the two nodes changes nothing.
pub order_nodes_comm : (a b : Bytes) → order_nodes a b ≡ order_nodes b a
unfolding order_nodes is_greater
order_nodes_comm a b = ground (arith, compare_bytes-flip a b, compare_bytes-eq a b)

-- The lesser hash comes first, and the two hashes are those given.
pub order_nodes-ordered : (a b : Bytes) → is_greater (order_nodes a b).0 (order_nodes a b).1 ≡ false
unfolding order_nodes is_greater
order_nodes-ordered a b = ground (arith, compare_bytes-flip a b)
