-- ===== src/Offers/Messages.antt =====
-- offers/encoding.go with lnwire/bolt12_offer.go: from an offer to the string that spells it, and back.
use boltnd.Prelude.{◌≤◌, ◌≡◌, List, ◌∷◌, ◌++◌, length, ◌∙◌, Bytes, All}
use boltnd.Prelude.Errors.{Result, ok}
use boltnd.Lnwire.Bolt12.{Bolt12, Features}
use boltnd.Lnwire.Bolt12.Values.{Reads}
use boltnd.Lnwire.Offer.{Offer, encode_offer, decode_offer, validate_offer}
use boltnd.Lnwire.Offer.Valid.{IsValid, validate_offer-IsValid}
use boltnd.Lnwire.Offer.RoundTrip.{IsEncodable, HasRoot, decode-encode_offer}
use boltnd.Offers.{offer_hrp, decode_offer_str}
use boltnd.Offers.Join.{Segment, IsPart, join, bodies}
use boltnd.Offers.Charset.{symbols, IsFiveBit}
use boltnd.Offers.Decode.{decode_offer_str-join}

-- Where lnd's streams and element codecs read back what they wrote; the offer's hashes have 32 bytes, its signature
-- 64, its integers fit in 64 bits, its features are a set of bits and not nil, its expiry is not that of 0 seconds nor
-- Go's zero time, its node's key is the one that its x coordinate stands for, so of even Y, and its merkle root is
-- that of its records: then an offer that Validate accepts comes back from a string that spells its encoding. The
-- encoding's bytes are regrouped from six or more five-bit values, and the string, in one part or more with
-- characters of its own in each and white space around them or none, spells "lno1" and the symbols of these values.
pub decode_offer_str-encode_offer :
    (b : Bolt12) (laws : Reads b) (convert_bits : Bytes → Result Bytes) (o : Offer) (fs : Features)
    (v d : Bytes) (s : Segment) (ss : List Segment)
    → IsEncodable b o fs
    → HasRoot b o
    → IsValid b o
    → encode_offer b o ≡ ok v
    → convert_bits d ≡ ok v
    → All IsPart (s ∷ ss)
    → bodies (s ∷ ss) ≡ offer_hrp ++ b'1' ∷ symbols d
    → 6 ≤ length d
    → All IsFiveBit d
    → decode_offer_str convert_bits (decode_offer b) (validate_offer b) (join s ss) ≡ ok o
decode_offer_str-encode_offer b laws convert_bits o fs v d s ss encodable root valid encoded grouped
      segments spelled six five =
    decode_offer_str-join convert_bits (decode_offer b) (validate_offer b) s ss d segments spelled
      six five
    ∙ rw (
      grouped,
      decode-encode_offer b laws o fs encodable v root encoded,
      (validate_offer-IsValid b o).1 valid,
    )
