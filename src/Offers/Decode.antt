-- ===== src/Offers/Decode.antt =====
-- `DecodeOfferStr` from the parts of a joined offer string.
use boltnd.Prelude.{◌≤◌, ◌≡◌, List, [], ◌∷◌, ◌++◌, length, arith, Bytes, All}
use boltnd.Prelude.Bytes.{bytes_eq}
use boltnd.Prelude.Errors.{Result, ok, wrap, ◌>>=◌, ◌>>◌}
use boltnd.Offers.{offer_hrp, lower, decode_offer_str}
use boltnd.Offers.Join.{Segment, IsSegment, IsPart, join, bodies, strip_offer-join}
use boltnd.Offers.Charset.{symbols, IsFiveBit}
use boltnd.Offers.Bech32.{decode_bech32-symbols}

module _ {A : Type 0} (convert_bits : Bytes → Result Bytes) (decode_offer : Bytes → Result A)
    (validate : A → Result (Unit {0})) where
  decode_offer_str-segments :
      (s : Segment) (ss : List Segment) (d : Bytes)
      → All IsSegment (s ∷ ss)
      → bodies (s ∷ ss) ≡ offer_hrp ++ b'1' ∷ symbols d
      → 6 ≤ length d
      → All IsFiveBit d
      → decode_offer_str convert_bits decode_offer validate (join s ss) ≡ (do
        offer_bytes ← wrap (convert_bits d)
        offer ← wrap (decode_offer offer_bytes)
        wrap (validate offer)
        ok offer)
  unfolding decode_offer_str bytes_eq
  decode_offer_str-segments s ss d segments spelled six five =
      rw (strip_offer-join s ss segments)
        (rw spelled (rw (decode_bech32-symbols offer_hrp d (λ e. cc) hrp_lower six five).0))
    where
      hrp_lower : All (λ c. (33 ≤ c) × (c ≤ 126) × (lower c ≡ c)) offer_hrp
      hrp_lower = unfold lower in omega arith

  parts-segments : (ss : List Segment) → All IsPart ss → All IsSegment ss
  parts-segments [] h = tt
  parts-segments (s ∷ ss) (h, hs) = (h.0, parts-segments ss hs)

  -- If an offer string is one part or more, joined by "+", each of them some characters other than white space, "+"
  -- and what checkASCII refuses, with white space around them or none, and these characters together spell "lno1"
  -- and the symbols of six or more five-bit values, then the result is that of regrouping these values, decoding and
  -- validating.
  pub decode_offer_str-join :
      (s : Segment) (ss : List Segment) (d : Bytes)
      → All IsPart (s ∷ ss)
      → bodies (s ∷ ss) ≡ offer_hrp ++ b'1' ∷ symbols d
      → 6 ≤ length d
      → All IsFiveBit d
      → decode_offer_str convert_bits decode_offer validate (join s ss) ≡ (do
        offer_bytes ← wrap (convert_bits d)
        offer ← wrap (decode_offer offer_bytes)
        wrap (validate offer)
        ok offer)
  decode_offer_str-join s ss d parts spelled six five =
      decode_offer_str-segments s ss d (parts-segments (s ∷ ss) parts) spelled six five
