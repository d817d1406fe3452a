-- ===== src/Offers/Strip.antt =====
-- `stripOffer`: which texts it takes, and what it makes of them.
use mathlib.Core.Path.{subst}
use boltnd.Prelude.{
  ℕ, ◌≤◌, ◌≡◌, ◌≢◌, refl, true, List, [], ◌∷◌, ◌++◌, length, arith, Bytes, All, Bool-cases, inl,
  inr, if◌then◌else◌, ◌==◌, not, All-append,
}
use boltnd.Prelude.Errors.{ok, wrap, >>=-eq-ok, wrap-eq-ok, ok-injective, guard, incorrect_split}
use boltnd.Offers.{
  split_plus, is_space, trim_left, trim_right, trim_space, check_ascii, strip_parts, strip_offer,
}

-- A character of a stripped offer.
abbrev pub IsClean : ℕ → Type 0
IsClean c = (33 ≤ c) × (c ≤ 126) × (c ≢ b'+')

abbrev pub IsSpace : ℕ → Type 0
IsSpace c = is_space c ≡ true

module _ (P : ℕ → Type 0) where
  trim_left-All : (s : Bytes) → All P s → All P (trim_left s)
  unfolding trim_left
  trim_left-All [] h = h
  trim_left-All (c ∷ s) h = elim (Bool-cases (is_space c)) [
    | inl t ↦ rw t (trim_left-All s h.1)
    | inr f ↦ rw f h
  ]

  trim_right-All : (s : Bytes) → All P s → All P (trim_right s)
  unfolding trim_right
  trim_right-All [] h = h
  trim_right-All (c ∷ s) h = go (trim_right s) (trim_right-All s h.1)
    where
      go :
          (t : Bytes)
          → All P t
          → All P (elim t [ [] ↦ if is_space c then [] else c ∷ [] | d ∷ u ↦ c ∷ d ∷ u ])
      go [] k = elim (Bool-cases (is_space c)) [ inl t ↦ rw t tt | inr f ↦ rw f (h.0, tt) ]
      go (d ∷ t) k = (h.0, k)

  trim_space-All : (s : Bytes) → All P s → All P (trim_space s)
  unfolding trim_space
  trim_space-All s h = trim_right-All (trim_left s) (trim_left-All s h)

abbrev AllParts : (ℕ → Type 0) → Bytes × List Bytes → Type 0
AllParts P (part, parts) = All P part × All (All P) parts

split_plus-no_plus : (s : Bytes) → AllParts (λ c. c ≢ b'+') (split_plus s)
unfolding split_plus
split_plus-no_plus [] = (tt, tt)
split_plus-no_plus (c ∷ s) = elim (Bool-cases (c == b'+')) [
  | inl t ↦ rw t (tt, split_plus-no_plus s)
  | inr f ↦ rw f ((ground arith, (split_plus-no_plus s).0), (split_plus-no_plus s).1)
]

check_ascii-All : (s : Bytes) → check_ascii s ≡ ok tt → All (λ c. (33 ≤ c) × (c ≤ 126)) s
unfolding check_ascii
check_ascii-All [] h = tt
check_ascii-All (c ∷ s) h = ground (arith, check_ascii-All s)

pub check_ascii_of-All : (s : Bytes) → All (λ c. (33 ≤ c) × (c ≤ 126)) s → check_ascii s ≡ ok tt
unfolding check_ascii
check_ascii_of-All [] h = refl
check_ascii_of-All (c ∷ s) h = ground (arith, check_ascii_of-All s h.1)

range-IsClean :
    (s : Bytes) → All (λ c. c ≢ b'+') s → All (λ c. (33 ≤ c) × (c ≤ 126)) s → All IsClean s
range-IsClean [] h k = tt
range-IsClean (c ∷ s) h k = ((k.0.0, k.0.1, h.0), range-IsClean s h.1 k.1)

strip_parts-IsClean :
    (parts : List Bytes) (t : Bytes)
    → All (All (λ c. c ≢ b'+')) parts
    → strip_parts parts ≡ ok t
    → All IsClean t × All (λ p. p ≢ []) parts
unfolding strip_parts
strip_parts-IsClean [] t h e = (subst (All IsClean) (ok-injective e) tt, tt)
strip_parts-IsClean (part ∷ parts) t h e =
    let (u, nonempty, e₁) = >>=-eq-ok (guard (not (length part == 0)) incorrect_split) _ e in
    let (v, ascii, e₂) = >>=-eq-ok (wrap (check_ascii (trim_space part))) _ e₁ in
    let (rest, stripped, e₃) = >>=-eq-ok (strip_parts parts) _ e₂ in
    let (clean, others) = strip_parts-IsClean parts rest h.1 stripped in
    (
      subst (All IsClean) (ok-injective e₃) (
          All-append IsClean (trim_space part) rest
            (range-IsClean (trim_space part) (trim_space-All _ part h.0)
              (check_ascii-All _ (wrap-eq-ok _ ascii)))
            clean),
      (λ none_left. ground arith, others),
    )

-- What `strip_offer` returns has only the characters 33 to 126, and no "+".
pub strip_offer-IsClean : (s t : Bytes) → strip_offer s ≡ ok t → All IsClean t
unfolding strip_offer
strip_offer-IsClean s t h =
    (strip_parts-IsClean ((split_plus s).0 ∷ (split_plus s).1) t (split_plus-no_plus s) h).0

pub split_plus-append :
    (a b : Bytes)
    → split_plus (a ++ b'+' ∷ b)
      ≡ ((split_plus a).0, (split_plus a).1 ++ (split_plus b).0 ∷ (split_plus b).1)
unfolding split_plus
split_plus-append [] b = refl
split_plus-append (c ∷ a) b = rw (split_plus-append a b) (ground arith)

strip_offer-parts :
    (s t : Bytes)
    → strip_offer s ≡ ok t
    → ((split_plus s).0 ≢ []) × All (λ p. p ≢ []) (split_plus s).1
unfolding strip_offer
strip_offer-parts s t h =
    (strip_parts-IsClean ((split_plus s).0 ∷ (split_plus s).1) t (split_plus-no_plus s) h).1

All-last :
    (P : Bytes → Type 0) (xs : List Bytes) (y : Bytes) (ys : List Bytes)
    → All P (xs ++ y ∷ ys)
    → P y × All P ys
All-last P [] y ys h = h
All-last P (x ∷ xs) y ys h = All-last P xs y ys h.1

-- A "+" at the start, at the end, or after another "+" is never taken.
pub strip_offer-misplaced_plus :
    (a b t : Bytes)
    → (strip_offer (b'+' ∷ b) ≢ ok t)
      × (strip_offer (a ++ b'+' ∷ []) ≢ ok t)
      × (strip_offer (a ++ b'+' ∷ b'+' ∷ b) ≢ ok t)
unfolding split_plus
strip_offer-misplaced_plus a b t = (
  λ h. (strip_offer-parts (b'+' ∷ b) t h).0 refl,
  λ h. (last_part a [] t h).0 refl,
  λ h. (last_part a (b'+' ∷ b) t h).0 refl,
)
  where
    last_part :
        (a b t : Bytes)
        → strip_offer (a ++ b'+' ∷ b) ≡ ok t
        → ((split_plus b).0 ≢ []) × All (λ p. p ≢ []) (split_plus b).1
    last_part a b t h =
        All-last (λ p. p ≢ []) (split_plus a).1 (split_plus b).0 (split_plus b).1
          (rw split_plus-append at (strip_offer-parts (a ++ b'+' ∷ b) t h)).1
