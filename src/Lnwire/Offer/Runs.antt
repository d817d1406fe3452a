-- ===== src/Lnwire/Offer/Runs.antt =====
-- Runs of lnwire/bolt12_offer.go on an offer with every field.
use boltnd.Prelude.{◌≡◌, ◌↔◌, [], ◌∷◌}
use boltnd.Prelude.Errors.{ok}
use boltnd.Lnwire.Offer.{validate_offer, decode_offer}
use boltnd.Lnwire.Offer.Valid.{IsValid, validate_offer-IsValid}
use boltnd.Lnwire.Offer.RoundTrip.{decode-encode_offer}
use boltnd.Lnwire.Sample.Messages.{messages, messages-Reads}
use boltnd.Lnwire.Offer.Sample.{
  coffee, coffee-IsEncodable, coffee-HasRoot, coffee_bytes, coffee_encoded,
}

decode-encode_offer_example : decode_offer messages coffee_bytes ≡ ok coffee
decode-encode_offer_example =
    decode-encode_offer messages messages-Reads coffee (3 ∷ 9 ∷ []) coffee-IsEncodable coffee_bytes
      coffee-HasRoot coffee_encoded

validate_offer-IsValid_example : (validate_offer messages coffee ≡ ok tt) ↔ IsValid messages coffee
validate_offer-IsValid_example = validate_offer-IsValid messages coffee
