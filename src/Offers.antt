-- ===== src/Offers.antt =====
-- The package offers: offers/bech32.go and offers/encoding.go. A Go string is the list of its code
-- points; all that passes `checkASCII` is one byte to a code point.
pub mod Strip
pub mod Join
pub mod Charset
pub mod Bech32
pub mod Decode
pub mod Messages
mod Runs
use boltnd.Prelude.{
  ℕ, zero, suc, ◌+◌, ◌-◌, ◌≡◌, Bool, true, false, not, ◌&&◌, ◌||◌, Option, none, some, List, [],
  ◌∷◌, ◌++◌, map, ltb, leb, ◌==◌, length, take, drop, Bytes, if◌then◌else◌,
}
use boltnd.Prelude.Errors.{
  Result, ok, err, wrap, replace, wrapped, text, incorrect_split, not_in_charset, invalid_offer_str,
  bad_hrp, ◌>>=◌, ◌>>◌, guard,
}
use boltnd.Prelude.Bytes.{codes, bytes_eq}

abbrev pub charset : Bytes
charset = codes "qpzry9x8gf2tvdw0s3jn54khce6mua7l"

abbrev pub offer_hrp : Bytes
offer_hrp = codes "lno"

-- strings.Split(s, "+"): the part that is being read, and the parts after it.
unfoldable pub split_plus : Bytes → Bytes × List Bytes
split_plus [] = ([], [])
split_plus (c ∷ s) =
    let (part, parts) = split_plus s in if c == b'+' then ([], part ∷ parts) else (c ∷ part, parts)

-- unicode.IsSpace
unfoldable pub is_space : ℕ → Bool
is_space c =
    leb 9 c && leb c 13
    || c == 0x20
    || c == 0x85
    || c == 0xa0
    || c == 0x1680
    || leb 0x2000 c && leb c 0x200a
    || c == 0x2028
    || c == 0x2029
    || c == 0x202f
    || c == 0x205f
    || c == 0x3000

unfoldable pub trim_left : Bytes → Bytes
trim_left [] = []
trim_left (c ∷ s) = let rest = trim_left s in if is_space c then rest else c ∷ s

unfoldable pub trim_right : Bytes → Bytes
trim_right [] = []
trim_right (c ∷ s) =
    let rest = trim_right s in
    elim rest [ [] ↦ if is_space c then [] else c ∷ [] | d ∷ t ↦ c ∷ d ∷ t ]

-- strings.TrimSpace
unfoldable pub trim_space : Bytes → Bytes
unfolding trim_left trim_right is_space
trim_space s = trim_right (trim_left s)

-- Only the code points 33 to 126 pass.
unfoldable pub check_ascii : Bytes → Result (Unit {0})
check_ascii [] = ok tt
check_ascii (c ∷ s) = let rest = check_ascii s in if ltb c 33 || ltb 126 c then err text else rest

-- strings.IndexByte; `none` is -1.
unfoldable pub index_byte : ℕ → Bytes → Option ℕ
index_byte c [] = none
index_byte c (d ∷ ds) =
    let rest = index_byte c ds in
    if c == d then some 0 else elim rest [ none ↦ none | some i ↦ some (suc i) ]

unfoldable pub index_result : Option ℕ → Result ℕ
index_result none = err (wrapped not_in_charset)
index_result (some i) = ok i

-- Each character by its index in `charset` (strings.IndexByte).
unfoldable pub to_bytes : Bytes → Result Bytes
unfolding index_byte index_result
to_bytes [] = ok []
to_bytes (c ∷ s) = do i ← index_result (index_byte c charset); is ← to_bytes s; ok (i ∷ is)

-- The loop of stripOffer over the parts, and strings.Join of what it leaves in them.
unfoldable pub strip_parts : List Bytes → Result Bytes
unfolding trim_space check_ascii
strip_parts [] = ok []
strip_parts (part ∷ parts) = do
  guard (not (length part == 0)) incorrect_split
  wrap (check_ascii (trim_space part))
  rest ← strip_parts parts
  ok (trim_space part ++ rest)

unfoldable pub strip_offer : Bytes → Result Bytes
unfolding strip_parts split_plus
strip_offer offer = let (part, parts) = split_plus offer in strip_parts (part ∷ parts)

-- strings.ToLower and strings.ToUpper on a character that `checkASCII` lets pass.
unfoldable pub lower : ℕ → ℕ
lower c = if leb b'A' c && leb c b'Z' then c + 32 else c

unfoldable pub upper : ℕ → ℕ
upper c = if leb b'a' c && leb c b'z' then c - 32 else c

unfoldable pub to_lower : Bytes → Bytes
unfolding lower
to_lower = map lower

unfoldable pub to_upper : Bytes → Bytes
unfolding upper
to_upper = map upper

-- strings.LastIndexByte(s, '1'); `none` is -1.
unfoldable pub last_index_one : Bytes → Option ℕ
last_index_one [] = none
last_index_one (c ∷ s) =
    let rest = last_index_one s in
    elim rest [ none ↦ if c == b'1' then some 0 else none | some i ↦ some (suc i) ]

unfoldable pub split_at_one : Bytes → Option ℕ → Result (Bytes × Bytes)
unfolding to_bytes
split_at_one bech none = err text
split_at_one bech (some one) = do
  guard (not (ltb one 1 || ltb (length bech) (one + 7))) text
  data_part ← replace text (to_bytes (drop (one + 1) bech))
  ok (take one bech, data_part)

unfoldable pub decode_bech32 : Bytes → Result (Bytes × Bytes)
unfolding check_ascii to_lower to_upper bytes_eq last_index_one split_at_one
decode_bech32 bech = do
  guard (not (ltb (length bech) 8)) text
  check_ascii bech
  guard (bytes_eq bech (to_lower bech) || bytes_eq bech (to_upper bech)) text
  split_at_one (to_lower bech) (last_index_one (to_lower bech))

-- `convert_bits` is bech32.ConvertBits with from 5 to 8 bits and no padding, `decode_offer` and
-- `validate` are lnwire.DecodeOffer and the method Validate of the offer that it returns.
module _ {A : Type 0} (convert_bits : Bytes → Result Bytes) (decode_offer : Bytes → Result A)
    (validate : A → Result (Unit {0})) where
  unfoldable pub decode_offer_str : Bytes → Result A
  unfolding strip_offer decode_bech32 bytes_eq
  decode_offer_str offer_str = do
    clean_offer ← wrap (strip_offer offer_str)
    (hrp, data_part) ← replace (wrapped invalid_offer_str) (decode_bech32 clean_offer)
    guard (bytes_eq hrp offer_hrp) (wrapped bad_hrp)
    offer_bytes ← wrap (convert_bits data_part)
    offer ← wrap (decode_offer offer_bytes)
    wrap (validate offer)
    ok offer
