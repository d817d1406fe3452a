-- ===== src/Lnwire/Merkle/Root.antt =====
-- `CalculateRoot` builds one binary tree over all the branches that it is given.
use mathlib.Core.List.{Perm, perm_append_comm, append_assoc, append-nil}
use mathlib.Core.List.Perm
use boltnd.Prelude.{
  ℕ, zero, suc, ◌≤◌, ◌≡◌, refl, sym, ap, List, [], ◌∷◌, ◌++◌, map, length, length-append,
  length-map, arith, Bytes,
}
use boltnd.Prelude.Errors.{ok}
use boltnd.Lnwire.Merkle.{Branch, branch_hash, branch_of, root_loop, calculate_root}

-- A merkle tree over branches, as a specification.
pub data Tree : Type 0 where
  tip : Branch → Tree
  fork : Tree → Tree → Tree

pub tips : Tree → List Branch
tips (tip b) = b ∷ []
tips (fork s t) = tips s ++ tips t

abbrev all_tips : List Tree → List Branch
all_tips [] = []
all_tips (t ∷ ts) = tips t ++ all_tips ts

all_tips-append : (ss ts : List Tree) → all_tips (ss ++ ts) ≡ all_tips ss ++ all_tips ts
all_tips-append [] ts = refl
all_tips-append (s ∷ ss) ts = rw (all_tips-append ss ts) (sym (append_assoc (tips s) _ _))

all_tips-map : (bs : List Branch) → all_tips (map tip bs) ≡ bs
unfolding tips
all_tips-map [] = refl
all_tips-map (b ∷ bs) = ap (λ t. b ∷ t) (all_tips-map bs)

-- The two trees at the front move to the back as one.
fork-perm :
    (s t : Tree) (ts : List Tree) → Perm (all_tips (ts ++ fork s t ∷ [])) (all_tips (s ∷ t ∷ ts))
unfolding tips
fork-perm s t ts =
    rw
      (
        all_tips-append ts (fork s t ∷ []),
        append-nil,
        ← append_assoc (tips s) (tips t) (all_tips ts),
      )
      (perm_append_comm (all_tips ts) (tips s ++ tips t))

module _ (tagged_hash : Bytes → Bytes → Bytes) where
  -- The branch at the top of a tree: its subtrees' hashes, in order.
  pub top : Tree → Branch
  top (tip b) = b
  top (fork s t) = branch_of (branch_hash tagged_hash (top s)) (branch_hash tagged_hash (top t))

  tops-append : (ss ts : List Tree) → map top (ss ++ ts) ≡ map top ss ++ map top ts
  tops-append [] ts = refl
  tops-append (s ∷ ss) ts = ap (λ l. top s ∷ l) (tops-append ss ts)

  tops-tips : (bs : List Branch) → map top (map tip bs) ≡ bs
  unfolding top
  tops-tips [] = refl
  tops-tips (b ∷ bs) = ap (λ l. b ∷ l) (tops-tips bs)

  root_loop-tree :
      (fuel : ℕ) (t : Tree) (ts : List Tree)
      → length ts ≤ fuel
      → (r : Tree) × (root_loop tagged_hash fuel (map top (t ∷ ts))
          ≡ ok (branch_hash tagged_hash (top r)))
        × Perm (tips r) (all_tips (t ∷ ts))
  unfolding root_loop top
  root_loop-tree fuel t [] h = (t, refl, rw append-nil (Perm.refl (tips t)))
  root_loop-tree zero t (s ∷ ts) h = absurd (omega arith)
  root_loop-tree (suc fuel) s (t ∷ []) h =
      let (r, e, p) = root_loop-tree fuel (fork s t) [] (omega arith) in
      (r, e, Perm.trans p (fork-perm s t []))
  root_loop-tree (suc fuel) s (t ∷ u ∷ ts) h =
      let (r, e, p) =
        root_loop-tree fuel u (ts ++ fork s t ∷ []) (rw length-append (omega arith)) in
      (r, rw tops-append at e, Perm.trans p (fork-perm s t (u ∷ ts)))

  -- On one branch or more `calculate_root` returns, within its rounds, the hash at the top of a
  -- binary tree that has exactly the given branches as its tips.
  pub calculate_root-tree :
      (b : Branch) (bs : List Branch)
      → (r : Tree) × (calculate_root tagged_hash (b ∷ bs) ≡ ok (branch_hash tagged_hash (top r)))
        × Perm (tips r) (b ∷ bs)
  unfolding calculate_root top tips
  calculate_root-tree b bs =
      let (r, e, p) =
        root_loop-tree (suc (length bs)) (tip b) (map tip bs) (rw length-map (omega arith)) in
      (r, rw tops-tips at e, rw all_tips-map at p)
