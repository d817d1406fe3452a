-- ===== src/Lnwire/InvoiceRequest/Valid.antt =====
-- What the method Validate of an invoice request accepts.
use boltnd.Prelude.{◌≡◌, ◌≢◌, ◌↔◌, Option, none, some, Bytes, not, true, Bool-cases, inl, inr}
use boltnd.Prelude.Bytes.{bytes_eq, bytes_eq_refl, bytes_eq-eq}
use boltnd.Prelude.Errors.{ok, offer_id_required, >>=-eq-ok, guard}
use boltnd.Lnwire.Tlv.{PubKey}
use boltnd.Lnwire.Bolt12.{Bolt12, zero_hash}
use boltnd.Lnwire.Bolt12.Signed.{Signs, validate_signature-Signs, guard-eq-ok}
use boltnd.Lnwire.InvoiceRequest.{
  InvoiceRequest, payer_key_of, signature_of, validate_invoice_request, invoice_request_digest,
}

payer_key_of-eq-ok : (o : Option PubKey) (k : PubKey) → payer_key_of o ≡ ok k → o ≡ some k
unfolding payer_key_of
payer_key_of-eq-ok none k h = cc
payer_key_of-eq-ok (some l) k h = cc

signature_of-eq-ok : (o : Option Bytes) (s : Bytes) → signature_of o ≡ ok s → o ≡ some s
unfolding signature_of
signature_of-eq-ok none s h = cc
signature_of-eq-ok (some t) s h = cc

-- The test of a hash against the hash of zeros.
pub bytes_eq-zero_hash : (h : Bytes) → (not (bytes_eq h zero_hash) ≡ true) ↔ (h ≢ zero_hash)
bytes_eq-zero_hash h = (
  λ e same. absurd (differ (rw (← same) (bytes_eq_refl h)) e),
  λ ne. elim (Bool-cases (bytes_eq h zero_hash)) [
    | inl t ↦ absurd (ne (bytes_eq-eq h zero_hash t))
    | inr f ↦ rw f
  ],
)
  where
    differ : bytes_eq h zero_hash ≡ true → not (bytes_eq h zero_hash) ≡ true → ⊥
    differ t e = cc

-- A request with an offer's id, a payer's key and the payer's signature of the request's digest.
abbrev pub IsValid : Bolt12 → InvoiceRequest → Type 0
IsValid b i =
    (i.offer_id ≢ zero_hash)
    × ((k : PubKey) × (s : Bytes) × (i.payer_key ≡ some k)
        × (i.signature ≡ some s)
        × Signs b k (invoice_request_digest b i) s)

-- Validate accepts exactly the requests that have an offer's id other than zeros, a payer's key, and a
-- signature by that key of the digest that SignatureDigest returns.
pub validate_invoice_request-IsValid :
    (b : Bolt12) (i : InvoiceRequest) → (validate_invoice_request b i ≡ ok tt) ↔ IsValid b i
unfolding validate_invoice_request invoice_request_digest
validate_invoice_request-IsValid b i = (
  λ h.
      let (u, id, h₁) =
        >>=-eq-ok (guard (not (bytes_eq i.offer_id zero_hash)) offer_id_required) _ h in
      let (k, has_key, h₂) = >>=-eq-ok (payer_key_of i.payer_key) _ h₁ in
      let (s, has_sig, h₃) = >>=-eq-ok (signature_of i.signature) _ h₂ in
      (
        (bytes_eq-zero_hash i.offer_id).0 (guard-eq-ok _ _ id),
        (
          k,
          s,
          payer_key_of-eq-ok i.payer_key k has_key,
          signature_of-eq-ok i.signature s has_sig,
          (validate_signature-Signs b k _ s).0 h₃,
        ),
      ),
  λ (id, (k, s, has_key, has_sig, signed)).
      rw ((bytes_eq-zero_hash i.offer_id).1 id, has_key, has_sig)
        ((validate_signature-Signs b k _ s).1 signed),
)
