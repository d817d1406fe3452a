-- ===== src/Lnwire/Invoice/Valid.antt =====
-- What the method Validate of an invoice accepts.
use boltnd.Prelude.{ℕ, ◌≤◌, ◌≡◌, ◌≢◌, ◌↔◌, refl, Option, none, some, not, true, length, ◌==◌, arith}
use boltnd.Prelude.Bytes.{bytes_eq}
use boltnd.Prelude.Errors.{
  ok, no_amount, no_payment_hash, no_creation_time, description_required, >>=-eq-ok, guard,
}
use boltnd.Lnwire.Tlv.{PubKey}
use boltnd.Lnwire.Bolt12.{Bolt12, zero_hash, signature_digest, invoice_tag, signature_tag}
use boltnd.Lnwire.Bolt12.Signed.{SignsIfAny, validate_optional-SignsIfAny, guard-eq-ok}
use boltnd.Lnwire.Offer.{node_id_of}
use boltnd.Lnwire.Offer.Valid.{node_id_of-eq-ok}
use boltnd.Lnwire.InvoiceRequest.Valid.{bytes_eq-zero_hash}
use boltnd.Lnwire.Invoice.{Invoice, is_zero_time, validate_invoice}

created : (o : Option ℕ) → not (is_zero_time o) ≡ true → (s : ℕ) × (o ≡ some s)
unfolding is_zero_time
created none h = cc
created (some s) h = (s, refl)

-- An invoice with an amount, a payment hash, a creation time, a node and a description, whose signature, if
-- it has one, is the node's for the invoice's root.
abbrev pub IsValid : Bolt12 → Invoice → Type 0
IsValid b i =
    (1 ≤ i.amount)
    × (i.payment_hash ≢ zero_hash)
    × ((s : ℕ) × (i.created_at ≡ some s))
    × (1 ≤ length i.description)
    × ((k : PubKey) × (i.node_id ≡ some k)
        × SignsIfAny b k (signature_digest b invoice_tag signature_tag i.merkle_root) i.signature)

-- Validate accepts exactly the invoices that have an amount, a payment hash other than zeros, a creation time,
-- a node and a description, and whose signature, where there is one, is the node's for the invoice's root.
pub validate_invoice-IsValid :
    (b : Bolt12) (i : Invoice) → (validate_invoice b i ≡ ok tt) ↔ IsValid b i
unfolding validate_invoice is_zero_time
validate_invoice-IsValid b i = (
  λ h.
      let (u, amount, h₁) = >>=-eq-ok (guard (not (i.amount == 0)) no_amount) _ h in
      let (u, hash, h₂) =
        >>=-eq-ok (guard (not (bytes_eq i.payment_hash zero_hash)) no_payment_hash) _ h₁ in
      let (u, time, h₃) =
        >>=-eq-ok (guard (not (is_zero_time i.created_at)) no_creation_time) _ h₂ in
      let (k, has_key, h₄) = >>=-eq-ok (node_id_of i.node_id) _ h₃ in
      let (u, described, h₅) =
        >>=-eq-ok (guard (not (length i.description == 0)) description_required) _ h₄ in
      let some_amount : not (i.amount == 0) ≡ true = guard-eq-ok _ _ amount in
      let some_bytes : not (length i.description == 0) ≡ true = guard-eq-ok _ _ described in
      (
        ground arith,
        (bytes_eq-zero_hash i.payment_hash).0 (guard-eq-ok _ _ hash),
        created i.created_at (guard-eq-ok _ _ time),
        ground arith,
        (
          k,
          node_id_of-eq-ok i.node_id k has_key,
          (validate_optional-SignsIfAny b k _ i.signature).0 h₅,
        ),
      ),
  λ (amount, hash, (s, time), described, (k, has_key, signed)).
      let some_amount : not (i.amount == 0) ≡ true = ground arith in
      let some_bytes : not (length i.description == 0) ≡ true = ground arith in
      rw (some_amount, (bytes_eq-zero_hash i.payment_hash).1 hash, time, has_key, some_bytes)
        ((validate_optional-SignsIfAny b k _ i.signature).1 signed),
)
