-- ===== src/Offers/Runs.antt =====
-- Runs of the decoding of offer strings.
use boltnd.Prelude.{◌≡◌, ◌⊎◌, refl, [], ◌∷◌, ◌++◌, All, Bytes, arith}
use boltnd.Prelude.Bytes.{codes, bytes_eq}
use boltnd.Prelude.Errors.{Result, ok}
use boltnd.Offers.{
  offer_hrp, strip_offer, strip_parts, split_plus, is_space, trim_left, trim_right, trim_space,
  check_ascii, index_byte, index_result, to_bytes, lower, upper, to_lower, to_upper, last_index_one,
  split_at_one, decode_bech32, decode_offer_str,
}
use boltnd.Offers.Strip.{IsClean}
use boltnd.Offers.Join.{Segment, IsPart, bodies}
use boltnd.Offers.Charset.{symbols, symbol, char_at}
use boltnd.Offers.Bech32.{IsBech32, decode_bech32-IsBech32}
use boltnd.Offers.Decode.{decode_offer_str-join}
use boltnd.Offers.Messages.{decode_offer_str-encode_offer}
use boltnd.Lnwire.Offer.{validate_offer, decode_offer}
use boltnd.Lnwire.Offer.Valid.{validate_offer-IsValid}
use boltnd.Lnwire.Offer.Sample.{
  coffee, coffee-IsEncodable, coffee-HasRoot, coffee_bytes, coffee_encoded, coffee_accepted,
}
use boltnd.Lnwire.Sample.Messages.{messages, messages-Reads}

strip_lno : strip_offer (codes "ln+ o1") ≡ ok (codes "lno1")
unfolding strip_offer strip_parts split_plus is_space trim_left trim_right trim_space check_ascii
strip_lno = refl

ln-IsClean : All IsClean (codes "ln")
ln-IsClean = (
  (omega arith, omega arith, λ e. omega arith),
  ((omega arith, omega arith, λ e. omega arith), tt),
)

decode_lno : decode_bech32 (codes "lno1qqqqqqp") ≡ ok (codes "lno", 0 ∷ 0 ∷ 0 ∷ 0 ∷ 0 ∷ 0 ∷ 1 ∷ [])
unfolding decode_bech32 check_ascii to_lower to_upper lower upper bytes_eq last_index_one
    split_at_one to_bytes index_byte index_result
decode_lno = refl

decode_bech32-IsBech32_example :
    IsBech32 (to_lower (codes "lno1qqqqqqp")) (codes "lno", 0 ∷ 0 ∷ 0 ∷ 0 ∷ 0 ∷ 0 ∷ 1 ∷ [])
    × ((codes "lno1qqqqqqp" ≡ to_lower (codes "lno1qqqqqqp"))
        ⊎ (codes "lno1qqqqqqp" ≡ to_upper (codes "lno1qqqqqqp")))
decode_bech32-IsBech32_example =
    decode_bech32-IsBech32 (codes "lno1qqqqqqp") (codes "lno") (0 ∷ 0 ∷ 0 ∷ 0 ∷ 0 ∷ 0 ∷ 1 ∷ [])
      decode_lno

-- "lno1", with a space after it, and "qqqqqqp".
abbrev head : Segment
head = record { before = []; body = codes "lno1"; after = codes " " }

abbrev rest : Segment
rest = record { before = []; body = codes "qqqqqqp"; after = [] }

segments : All IsPart (head ∷ rest ∷ [])
segments = (
  (
    record {
      spaces_before = tt;
      clean = omega arith;
      spaces_after = (unfold is_space in refl, tt);
      nonempty = λ e. cc;
    },
    λ e. cc,
  ),
  (
    (
      record { spaces_before = tt; clean = omega arith; spaces_after = tt; nonempty = λ e. cc },
      λ e. cc,
    ),
    tt,
  ),
)

abbrev values : Bytes
values = 0 ∷ 0 ∷ 0 ∷ 0 ∷ 0 ∷ 0 ∷ 1 ∷ []

spelled : bodies (head ∷ rest ∷ []) ≡ offer_hrp ++ 49 ∷ symbols values
unfolding symbols symbol char_at
spelled = refl

abbrev as_they_are : Bytes → Result Bytes
as_they_are b = ok b

abbrev accept : Bytes → Result (Unit {0})
accept b = ok tt

decode_offer_str-join_example :
    decode_offer_str as_they_are as_they_are accept (codes "lno1 +qqqqqqp") ≡ ok values
decode_offer_str-join_example =
    decode_offer_str-join as_they_are as_they_are accept head (rest ∷ []) values segments spelled
      (omega arith) (omega arith)

abbrev as_coffee : Bytes → Result Bytes
as_coffee d = ok coffee_bytes

decode_offer_str-encode_offer_example :
    decode_offer_str as_coffee
      (decode_offer messages)
      (validate_offer messages)
      (codes "lno1 +qqqqqqp")
    ≡ ok coffee
decode_offer_str-encode_offer_example =
    decode_offer_str-encode_offer messages messages-Reads as_coffee coffee (3 ∷ 9 ∷ []) coffee_bytes
      values head (rest ∷ []) coffee-IsEncodable coffee-HasRoot
      ((validate_offer-IsValid messages coffee).0 coffee_accepted) coffee_encoded refl segments
      spelled (omega arith) (omega arith)
