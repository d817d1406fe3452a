-- ===== src/Offers/Bech32.antt =====
-- `decodeBech32`: it reads back what the charset writes, and what it takes has that form.
use mathlib.Core.Path.{subst, ap₂}
use native.Mathlib.Numerals.{add-one}
use boltnd.Prelude.{
  ℕ, zero, suc, ◌+◌, ◌≤◌, ◌≡◌, ◌≢◌, refl, sym, ap, ◌∙◌, true, Option, none, some, [], ◌∷◌, ◌++◌,
  length, length-append, length-map, take, drop, take_all, arith, Bytes, Bool, All, All-append,
  Bool-cases, ◌⊎◌, inl, inr, ltb, not, ◌||◌,
}
use boltnd.Prelude.Bytes.{bytes_eq, bytes_eq_refl, bytes_eq-eq}
use boltnd.Prelude.Errors.{ok, replace, replace-eq-ok, >>=-eq-ok, ok-injective, guard, text}
use boltnd.Offers.{
  to_bytes, lower, to_lower, to_upper, last_index_one, split_at_one, decode_bech32, check_ascii,
}
use boltnd.Offers.Charset.{
  symbols, IsFiveBit, symbol-IsSymbol, symbols-no_one, length-symbols, to_bytes-symbols,
  symbols-to_bytes, last_index_one-append, last_index_one-split,
}

-- A character that a lower case bech32 text can hold.
abbrev pub IsLower : ℕ → Type 0
IsLower c = (33 ≤ c) × (c ≤ 126) × (lower c ≡ c)

to_lower_same : (s : Bytes) → All IsLower s → to_lower s ≡ s
unfolding to_lower
to_lower_same [] h = refl
to_lower_same (c ∷ s) h = ap₂ (λ x xs. x ∷ xs) h.0.2 (to_lower_same s h.1)

to_lower-to_upper : (s : Bytes) → All IsLower s → to_lower (to_upper s) ≡ s
unfolding to_lower to_upper
to_lower-to_upper [] h = refl
to_lower-to_upper (c ∷ s) h = ap₂ (λ x xs. x ∷ xs) (ground arith) (to_lower-to_upper s h.1)

to_upper-to_upper : (s : Bytes) → to_upper (to_upper s) ≡ to_upper s
unfolding to_upper
to_upper-to_upper [] = refl
to_upper-to_upper (c ∷ s) = ap₂ (λ x xs. x ∷ xs) (ground arith) (to_upper-to_upper s)

check_ascii-lower : (s : Bytes) → All IsLower s → check_ascii s ≡ ok tt
unfolding check_ascii
check_ascii-lower [] h = refl
check_ascii-lower (c ∷ s) h = ground (arith, check_ascii-lower s h.1)

check_ascii-to_upper : (s : Bytes) → All IsLower s → check_ascii (to_upper s) ≡ ok tt
unfolding check_ascii to_upper
check_ascii-to_upper [] h = refl
check_ascii-to_upper (c ∷ s) h = ground (arith, check_ascii-to_upper s h.1)

bytes_eq_either :
    (s : Bytes)
    → bytes_eq s (to_lower s) || bytes_eq s (to_upper s) ≡ true
    → (s ≡ to_lower s) ⊎ (s ≡ to_upper s)
bytes_eq_either s h = elim (Bool-cases (bytes_eq s (to_lower s))) [
  | inl t ↦ inl (bytes_eq-eq s (to_lower s) t)
  | inr f ↦ inr (bytes_eq-eq s (to_upper s) (rw f at h))
]

IsLower-symbols : (d : Bytes) → All IsFiveBit d → All IsLower (symbols d)
unfolding symbols
IsLower-symbols [] h = tt
IsLower-symbols (i ∷ d) h =
    let c = symbol-IsSymbol i h.0 in ((c.low, c.high, c.lower_same), IsLower-symbols d h.1)

drop-append_cons : (a t : Bytes) (c : ℕ) → drop (suc (length a)) (a ++ c ∷ t) ≡ t
drop-append_cons [] t c = refl
drop-append_cons (x ∷ a) t c = drop-append_cons a t c

positive : (s : Bytes) → s ≢ [] → 1 ≤ length s
positive [] h = absurd (h refl)
positive (c ∷ s) h = omega arith

-- `split_at_one` at the "1" between the human readable part and the symbols.
split_at_one-symbols :
    (hrp d : Bytes)
    → hrp ≢ []
    → 6 ≤ length d
    → All IsFiveBit d
    → split_at_one (hrp ++ b'1' ∷ symbols d) (some (length hrp)) ≡ ok (hrp, d)
unfolding split_at_one
split_at_one-symbols hrp d ne six five =
    rw
      (
        add-one,
        drop-append_cons hrp (symbols d) b'1',
        to_bytes-symbols d five,
        take_all (length hrp) hrp (b'1' ∷ symbols d) refl,
        length-append,
        length-symbols d,
      )
      (ground (arith, positive hrp ne))

-- From a text whose lower case is the human readable part, a "1" and symbols, and that is of one
-- case, both parts are read.
decode_bech32-of_lower :
    (s hrp d : Bytes)
    → to_lower s ≡ hrp ++ b'1' ∷ symbols d
    → check_ascii s ≡ ok tt
    → bytes_eq s (to_lower s) || bytes_eq s (to_upper s) ≡ true
    → hrp ≢ []
    → 6 ≤ length d
    → All IsFiveBit d
    → decode_bech32 s ≡ ok (hrp, d)
unfolding decode_bech32
decode_bech32-of_lower s hrp d low ascii case ne six five =
    rw (long_enough, ascii, case)
      (rw low (
        rw (last_index_one-append hrp (symbols d) (symbols-no_one d five))
          (split_at_one-symbols hrp d ne six five)))
  where
    size : length s ≡ length hrp + suc (length d)
    size =
        sym (unfold to_lower in length-map s lower)
        ∙ ap length low
        ∙ length-append hrp _
        ∙ ap (λ n. length hrp + suc n) (length-symbols d)

    long_enough : guard (not (ltb (length s) 8)) text ≡ ok tt
    long_enough = ground (arith, size, positive hrp ne)

-- A human readable part that is not empty and has no upper case letter, and six or more five-bit
-- values: `decode_bech32` reads both back from their lower case text, and from the same text in upper
-- case.
pub decode_bech32-symbols :
    (hrp d : Bytes)
    → hrp ≢ []
    → All IsLower hrp
    → 6 ≤ length d
    → All IsFiveBit d
    → (decode_bech32 (hrp ++ b'1' ∷ symbols d) ≡ ok (hrp, d))
      × (decode_bech32 (to_upper (hrp ++ b'1' ∷ symbols d)) ≡ ok (hrp, d))
decode_bech32-symbols hrp d ne clean six five = (
  decode_bech32-of_lower s hrp d (to_lower_same s low) (check_ascii-lower s low)
      (rw (to_lower_same s low, bytes_eq_refl s)) ne six five,
  decode_bech32-of_lower (to_upper s) hrp d (to_lower-to_upper s low) (check_ascii-to_upper s low)
      (rw (to_upper-to_upper s, bytes_eq_refl (to_upper s)) (or_true _)) ne six five,
)
  where
    s : Bytes
    s = hrp ++ b'1' ∷ symbols d

    low : All IsLower s
    low =
        All-append IsLower hrp (b'1' ∷ symbols d) clean
          ((omega arith, omega arith, unfold lower in refl), IsLower-symbols d five)

    or_true : (b : Bool) → b || true ≡ true
    or_true b = ground arith

take_nonempty : (n : ℕ) (s : Bytes) → 1 ≤ n → 1 ≤ length s → take n s ≢ []
take_nonempty zero s h k e = absurd (omega arith)
take_nonempty (suc n) [] h k e = absurd (omega arith)
take_nonempty (suc n) (c ∷ s) h k e = cc

length-take-le : (n : ℕ) (s : Bytes) → length (take n s) ≤ n
length-take-le zero s = omega arith
length-take-le (suc n) [] = omega arith
length-take-le (suc n) (c ∷ s) = omega (arith, length-take-le n s)

-- The text is a human readable part, a "1", and six symbols or more.
abbrev pub IsBech32 : Bytes → Bytes × Bytes → Type 0
IsBech32 s (hrp, d) = (s ≡ hrp ++ b'1' ∷ symbols d) × (hrp ≢ []) × (6 ≤ length d) × All IsFiveBit d

split_at_one-IsBech32 :
    (s : Bytes) (one : ℕ) (p : Bytes × Bytes)
    → last_index_one s ≡ some one
    → split_at_one s (some one) ≡ ok p
    → IsBech32 s p
unfolding split_at_one
split_at_one-IsBech32 s one p found h =
    let (u, inside, h₁) =
      >>=-eq-ok (guard (not (ltb one 1 || ltb (length s) (one + 7))) text) _ h in
    let (d, decoded, h₂) = >>=-eq-ok (replace text (to_bytes (drop (one + 1) s))) _ h₁ in
    let (same, five) =
      symbols-to_bytes (drop (suc one) s) d
        (rw add-one at (replace-eq-ok text (to_bytes (drop (one + 1) s)) decoded)) in
    let bounds = bounds_of inside in
    let whole : s ≡ take one s ++ b'1' ∷ symbols d = rw same (last_index_one-split s one found).0 in
    subst (IsBech32 s) (ok-injective h₂) (
      whole,
      take_nonempty one s bounds.0 (omega (arith, bounds)),
      omega (
        arith,
        bounds,
        length-take-le one s,
        ap length whole ∙ length-append (take one s) _,
        length-symbols d,
      ),
      five,
    )
  where
    bounds_of :
        {u : Unit {0}}
        → guard (not (ltb one 1 || ltb (length s) (one + 7))) text ≡ ok u
        → (1 ≤ one) × (one + 7 ≤ length s)
    bounds_of e = ground arith

-- What `decode_bech32` takes is of one case, and its lower case is the human readable part that is
-- returned, which is not empty, a "1", and the symbols of the data, six values or more below 32.
pub decode_bech32-IsBech32 :
    (s hrp d : Bytes)
    → decode_bech32 s ≡ ok (hrp, d)
    → IsBech32 (to_lower s) (hrp, d) × ((s ≡ to_lower s) ⊎ (s ≡ to_upper s))
unfolding decode_bech32
decode_bech32-IsBech32 s hrp d h =
    let (u, long, h₁) = >>=-eq-ok (guard (not (ltb (length s) 8)) text) _ h in
    let (v, ascii, h₂) = >>=-eq-ok (check_ascii s) _ h₁ in
    let (w, case, h₃) =
      >>=-eq-ok (guard (bytes_eq s (to_lower s) || bytes_eq s (to_upper s)) text) _ h₂ in
    (of_index (last_index_one (to_lower s)) refl h₃, bytes_eq_either s (passed _ case))
  where
    passed : (b : Bool) {u : Unit {0}} → guard b text ≡ ok u → b ≡ true
    passed b e = ground arith

    of_index :
        (o : Option ℕ)
        → last_index_one (to_lower s) ≡ o
        → split_at_one (to_lower s) o ≡ ok (hrp, d)
        → IsBech32 (to_lower s) (hrp, d)
    of_index none e k = unfold split_at_one in ground arith
    of_index (some one) e k = split_at_one-IsBech32 (to_lower s) one (hrp, d) e k
