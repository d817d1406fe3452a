-- ===== src/Lnwire/Merkle/Rising.antt =====
-- Records in the order of their types: two such lists with the same records are one list.
use mathlib.Core.Path.{ap₂}
use mathlib.Core.Logic.{∥∥₁_elim, ∥∥₁_prop}
use mathlib.Core.Logic.Or
use mathlib.Core.List.{Perm, Permᴰ, Perm-prop, Pairwise, Pairwise-cons, Mem, mem-cons}
use mathlib.Core.List.Perm
use native.Mathlib.Decide.{ℕ_discrete}
use boltnd.Prelude.{
  ℕ, ◌<◌, ◌≤◌, ◌≡◌, ◌≢◌, refl, sym, List, [], ◌∷◌, select, arith, Bool, Bool-cases, inl, inr,
}
use boltnd.Prelude.Errors.{Error}
use boltnd.Lnwire.Tlv.{Record}

Error-discrete : Discrete Error
Error-discrete = hlevel ℕ_discrete

Record-set : IsSet Record
Record-set = hlevel (ℕ_discrete, Error-discrete)

-- What tlv.SortRecords does: the same records, in the order of their types.
pub record Sorts (sort_records : List Record → List Record) : Type 0 where
  pub perm : (rs : List Record) → Perm (sort_records rs) rs
  pub ordered : (rs : List Record) → Pairwise (λ r s. r.tlv_type ≤ s.tlv_type) (sort_records rs)

-- No two records have one type.
abbrev pub Distinct : List Record → Type 0
Distinct = Pairwise (λ r s. r.tlv_type ≢ s.tlv_type)

module _ {ℓ} {A : Type ℓ} (p : A → Bool) where
  select_cons-perm :
      (x : A) (xs ys : List A)
      → Perm (select p xs) (select p ys)
      → Perm (select p (x ∷ xs)) (select p (x ∷ ys))
  select_cons-perm x xs ys h = elim (Bool-cases (p x)) [
    | inl t ↦ rw t (Perm.cons x h)
    | inr f ↦ rw f h
  ]

  select_swap-perm : (x y : A) (l : List A) → Perm (select p (y ∷ x ∷ l)) (select p (x ∷ y ∷ l))
  select_swap-perm x y l = elim (Bool-cases (p x)) [
    | inl t ↦ elim (Bool-cases (p y)) [
      | inl u ↦ rw (t, u) (Perm.swap x y (select p l))
      | inr u ↦ rw (t, u) (Perm.refl (x ∷ select p l))
    ]
    | inr t ↦ elim (Bool-cases (p y)) [
      | inl u ↦ rw (t, u) (Perm.refl (y ∷ select p l))
      | inr u ↦ rw (t, u) (Perm.refl (select p l))
    ]
  ]

  selectᴰ-perm : {xs ys : List A} → Permᴰ xs ys → Perm (select p xs) (select p ys)
  selectᴰ-perm Permᴰ.nil = Perm.nil
  selectᴰ-perm (Permᴰ.cons {a = x} e h) = rw (← e) (select_cons-perm x _ _ (selectᴰ-perm h))
  selectᴰ-perm (Permᴰ.swap {a = x} {b = y} {l = l} e f) = rw (← e, ← f) (select_swap-perm y x l)
  selectᴰ-perm (Permᴰ.trans h k) = Perm.trans (selectᴰ-perm h) (selectᴰ-perm k)

  pub select-perm : {xs ys : List A} → Perm xs ys → Perm (select p xs) (select p ys)
  select-perm h = ∥∥₁_elim h Perm-prop selectᴰ-perm

  mem-select : {a : A} (xs : List A) → Mem a (select p xs) → Mem a xs
  mem-select [] m = m
  mem-select (x ∷ xs) m = elim (Bool-cases (p x)) [
    | inl t ↦
        Or.elim ∥∥₁_prop (mem-cons.0 (rw t at m)) (λ e. mem-cons.1 (Or.inl e))
          (λ k. mem-cons.1 (Or.inr (mem-select xs k)))
    | inr f ↦ mem-cons.1 (Or.inr (mem-select xs (rw f at m)))
  ]

  pub select-Pairwise {κ} :
      (R : A → A → Type κ) (xs : List A) → Pairwise R xs → Pairwise R (select p xs)
  select-Pairwise R [] h = h
  select-Pairwise R (x ∷ xs) h = elim (Bool-cases (p x)) [
    | inl t ↦ rw t (
        Pairwise-cons.1 (
          λ a m. (Pairwise-cons.0 h).0 a (mem-select xs m),
          select-Pairwise R xs (Pairwise-cons.0 h).1,
        ))
    | inr f ↦ rw f (select-Pairwise R xs (Pairwise-cons.0 h).1)
  ]

-- Types rise strictly.
abbrev pub Rising : List Record → Type 0
Rising = Pairwise (λ r s. r.tlv_type < s.tlv_type)

pub Rising-of_Distinct :
    (rs : List Record) → Pairwise (λ r s. r.tlv_type ≤ s.tlv_type) rs → Distinct rs → Rising rs
Rising-of_Distinct [] h d = Pairwise.nil
Rising-of_Distinct (r ∷ rs) h d = Pairwise-cons.1 (
  λ s m. lt_of_le_ne ((Pairwise-cons.0 h).0 s m) ((Pairwise-cons.0 d).0 s m),
  Rising-of_Distinct rs (Pairwise-cons.0 h).1 (Pairwise-cons.0 d).1,
)
  where
    lt_of_le_ne : {m n : ℕ} → m ≤ n → m ≢ n → m < n
    lt_of_le_ne le ne = omega arith

Rising-head :
    (r s : Record) (rs ss : List Record)
    → Rising (r ∷ rs)
    → Rising (s ∷ ss)
    → Perm (r ∷ rs) (s ∷ ss)
    → r ≡ s
Rising-head r s rs ss hr hs p =
    Or.elim (Record-set r s) (mem-cons.0 ((Perm.mem_iff p).0 (mem-cons.1 (Or.inl refl)))) (λ e. e)
      λ ms.
        Or.elim (Record-set r s) (mem-cons.0 ((Perm.mem_iff p).1 (mem-cons.1 (Or.inl refl))))
          (λ e. sym e)
          λ mr. absurd (lt_asymm ((Pairwise-cons.0 hs).0 r ms) ((Pairwise-cons.0 hr).0 s mr))
  where
    lt_asymm : {m n : ℕ} → m < n → n < m → ⊥
    lt_asymm h k = omega arith

-- Lists of the same records in rising order are one list.
pub Rising-eq : (rs ss : List Record) → Rising rs → Rising ss → Perm rs ss → rs ≡ ss
Rising-eq [] ss hr hs p = Perm.nil-eq p
Rising-eq (r ∷ rs) [] hr hs p = Perm.eq-nil p
Rising-eq (r ∷ rs) (s ∷ ss) hr hs p =
    let e = Rising-head r s rs ss hr hs p in
    ap₂ (λ x xs. x ∷ xs) e
      (Rising-eq rs ss (Pairwise-cons.0 hr).1 (Pairwise-cons.0 hs).1 (Perm.cons_inv (rw e at p)))
