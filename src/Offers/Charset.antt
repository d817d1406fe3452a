-- ===== src/Offers/Charset.antt =====
-- The bech32 charset: five-bit values and their characters, and the last "1" of a text.
use mathlib.Core.Path.{subst, ap₂}
use boltnd.Prelude.{
  ℕ, zero, suc, ◌≤◌, ◌<◌, ◌≡◌, ◌≢◌, refl, ap, true, false, Option, none, some, [], ◌∷◌, ◌++◌,
  length, take, drop, arith, Bytes, Bool, All, ◌==◌, leb, not, ◌&&◌, if◌then◌else◌,
}
use boltnd.Prelude.Errors.{ok, >>=-eq-ok, ok-injective}
use boltnd.Offers.{charset, index_byte, index_result, to_bytes, lower, last_index_one}

-- The character of the charset at an index; past the charset, 0.
unfoldable pub char_at : ℕ → Bytes → ℕ
char_at i [] = 0
char_at zero (c ∷ cs) = c
char_at (suc i) (c ∷ cs) = char_at i cs

unfoldable pub symbol : ℕ → ℕ
unfolding char_at
symbol i = char_at i charset

-- What a bech32 encoder writes for a list of five-bit values.
unfoldable pub symbols : Bytes → Bytes
unfolding symbol
symbols [] = []
symbols (i ∷ is) = symbol i ∷ symbols is

abbrev pub IsFiveBit : ℕ → Type 0
IsFiveBit i = i < 32

-- What the proofs need of a symbol: its index, and that it is a lower case character but no "1".
good_symbol : ℕ → Bool
unfolding symbol index_byte lower
good_symbol i =
    elim (index_byte (symbol i) charset) [ none ↦ false | some j ↦ i == j ]
    && lower (symbol i) == symbol i
    && leb 33 (symbol i)
    && leb (symbol i) 126
    && not (symbol i == b'1')

-- All symbols of the values below `n` are good.
good_below : ℕ → Bool
good_below zero = true
good_below (suc i) = let others = good_below i in if good_symbol i then others else false

good_below-good_symbol : (i n : ℕ) → i < n → good_below n ≡ true → good_symbol i ≡ true
unfolding good_below
good_below-good_symbol i zero below all = absurd (omega arith)
good_below-good_symbol i (suc m) below all = ground (arith, good_below-good_symbol i m)

good_symbols : good_below 32 ≡ true
unfolding good_below good_symbol
good_symbols = refl

pub record IsSymbol (i c : ℕ) : Type 0 where
  pub index : index_byte c charset ≡ some i
  pub lower_same : lower c ≡ c
  pub low : 33 ≤ c
  pub high : c ≤ 126
  pub not_one : c ≢ b'1'

pub symbol-IsSymbol : (i : ℕ) → IsFiveBit i → IsSymbol i (symbol i)
symbol-IsSymbol i h = go (good_below-good_symbol i 32 h good_symbols)
  where
    go : good_symbol i ≡ true → IsSymbol i (symbol i)
    go e = unfold good_symbol in ground (arith)

pub to_bytes-symbols : (d : Bytes) → All IsFiveBit d → to_bytes (symbols d) ≡ ok d
unfolding to_bytes symbols
to_bytes-symbols [] h = refl
to_bytes-symbols (i ∷ d) h = rw (symbol-IsSymbol i h.0).index (rw (to_bytes-symbols d h.1))

index_byte-char_at :
    (c i : ℕ) (cs : Bytes) → index_byte c cs ≡ some i → (char_at i cs ≡ c) × (i < length cs)
unfolding index_byte char_at
index_byte-char_at c i [] h = cc
index_byte-char_at c zero (d ∷ cs) h = ground arith
index_byte-char_at c (suc i) (d ∷ cs) h = ground (arith, index_byte-char_at c i cs)

index_result-eq-ok : (o : Option ℕ) (i : ℕ) → index_result o ≡ ok i → o ≡ some i
unfolding index_result
index_result-eq-ok o i h = ground arith

pub symbols-to_bytes : (s d : Bytes) → to_bytes s ≡ ok d → (symbols d ≡ s) × All IsFiveBit d
unfolding to_bytes symbols symbol
symbols-to_bytes [] d h =
    subst (λ d. (symbols d ≡ []) × All IsFiveBit d) (ok-injective h) (refl, tt)
symbols-to_bytes (c ∷ s) d h =
    let (i, e, h₁) = >>=-eq-ok (index_result (index_byte c charset)) _ h in
    let (is, es, h₂) = >>=-eq-ok (to_bytes s) _ h₁ in
    let (same, five) = symbols-to_bytes s is es in
    let (at, below) = index_byte-char_at c i charset (index_result-eq-ok _ i e) in
    subst (λ d. (symbols d ≡ c ∷ s) × All IsFiveBit d) (ok-injective h₂)
      (ap₂ (λ x xs. x ∷ xs) at same, (below, five))

last_index_one-none : (s : Bytes) → All (λ c. c ≢ b'1') s → last_index_one s ≡ none
unfolding last_index_one
last_index_one-none [] h = refl
last_index_one-none (c ∷ s) h = ground (arith, last_index_one-none s h.1)

pub last_index_one-append :
    (a s : Bytes) → All (λ c. c ≢ b'1') s → last_index_one (a ++ b'1' ∷ s) ≡ some (length a)
unfolding last_index_one
last_index_one-append [] s h = rw (last_index_one-none s h)
last_index_one-append (c ∷ a) s h = rw (last_index_one-append a s h)

pub last_index_one-split :
    (s : Bytes) (i : ℕ)
    → last_index_one s ≡ some i
    → (s ≡ take i s ++ b'1' ∷ drop (suc i) s) × (i < length s)
unfolding last_index_one
last_index_one-split [] i h = cc
last_index_one-split (c ∷ s) zero h = ground arith
last_index_one-split (c ∷ s) (suc i) h = ground (arith, last_index_one-split s i)

pub symbols-no_one : (d : Bytes) → All IsFiveBit d → All (λ c. c ≢ b'1') (symbols d)
unfolding symbols
symbols-no_one [] h = tt
symbols-no_one (i ∷ d) h = ((symbol-IsSymbol i h.0).not_one, symbols-no_one d h.1)

pub length-symbols : (d : Bytes) → length (symbols d) ≡ length d
unfolding symbols
length-symbols [] = refl
length-symbols (i ∷ d) = ap suc (length-symbols d)
