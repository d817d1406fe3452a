-- ===== src/Lnwire/InvoiceRequest/Quantity.antt =====
-- The amounts and quantities that can be requested of an offer.
use boltnd.Prelude.{
  ℕ, ◌≤◌, ◌≡◌, ◌≢◌, ◌⊎◌, inl, inr, ap, ◌∙◌, Option, List, Bytes, ◌==◌, arith, Bool-cases,
}
use boltnd.Prelude.Errors.{
  Result, ok, ◌>>=◌, wrap, replace, text, wrap-eq-ok, replace-eq-ok, ok-injective, >>=-eq-ok,
}
use boltnd.Lnwire.Tlv.{PubKey, Record}
use boltnd.Lnwire.Bolt12.{Bolt12, root_of_records}
use boltnd.Lnwire.Offer.{Offer}
use boltnd.Lnwire.InvoiceRequest.{
  InvoiceRequest, request_for, check_request, new_invoice_request, invoice_request_records,
}
use boltnd.Lnwire.InvoiceRequest.RoundTrip.{HasRoot}

-- The amount is at least that of the offer, and the quantity lies within its range, where a range has
-- both bounds; of an offer with neither bound or only a maximum, no quantity is requested.
abbrev pub IsAllowed : Offer → ℕ → ℕ → Type 0
IsAllowed o amount quantity =
    (o.minimum_amount ≤ amount)
    × (((o.quantity_min ≡ 0) × (quantity ≡ 0))
        ⊎ ((o.quantity_min ≢ 0)
            × (o.quantity_max ≢ 0)
            × (o.quantity_min ≤ quantity)
            × (quantity ≤ o.quantity_max)))

check_request-IsAllowed_to :
    (o : Offer) (amount quantity : ℕ)
    → check_request o amount quantity ≡ ok tt
    → IsAllowed o amount quantity
unfolding check_request
check_request-IsAllowed_to o amount quantity h = elim (Bool-cases (o.quantity_min == 0)) [
  | inl no_range ↦ (ground arith, inl (ground arith, ground arith))
  | inr bounded ↦ (ground arith, inr (ground arith, ground arith, ground arith, ground arith))
]

check_request-IsAllowed_from :
    (o : Offer) (amount quantity : ℕ)
    → IsAllowed o amount quantity
    → check_request o amount quantity ≡ ok tt
unfolding check_request
check_request-IsAllowed_from o amount quantity (enough, inl (no_min, nothing)) = ground arith
check_request-IsAllowed_from o amount quantity (enough, inr (has_min, has_max, low, high)) =
    ground arith

module _ (b : Bolt12) (o : Offer) (amount quantity : ℕ) (key : Option PubKey) (note : Bytes) where
  -- An invoice request is only made for an amount and a quantity that the offer allows; it then has the
  -- offer's chain, id and features, the amount, quantity, key and note, no signature, and the root of its records.
  pub new_invoice_request-IsAllowed :
      (i : InvoiceRequest)
      → new_invoice_request b o amount quantity key note ≡ ok i
      → IsAllowed o amount quantity
        × (i ≡ record (request_for o amount quantity key note) { merkle_root = i.merkle_root })
        × HasRoot b i
  unfolding new_invoice_request
  new_invoice_request-IsAllowed i h =
      let request = request_for o amount quantity key note in
      let (u, allowed, h₁) = >>=-eq-ok (check_request o amount quantity) _ h in
      let (rs, made, h₂) = >>=-eq-ok (wrap (invoice_request_records b request)) _ h₁ in
      let (root, rooted, h₃) = >>=-eq-ok (replace text (root_of_records b rs)) _ h₂ in
      (
        check_request-IsAllowed_to o amount quantity allowed,
        rw (← ok-injective h₃),
        rw (← ok-injective h₃) (rs, wrap-eq-ok _ made, replace-eq-ok text _ rooted),
      )

  -- If the offer allows the amount and the quantity and the request has records that have a root, the
  -- request is made.
  pub new_invoice_request_total :
      (rs : List Record) (root : Bytes)
      → IsAllowed o amount quantity
      → invoice_request_records b (request_for o amount quantity key note) ≡ ok rs
      → root_of_records b rs ≡ ok root
      → new_invoice_request b o amount quantity key note
        ≡ ok (record (request_for o amount quantity key note) { merkle_root = root })
  unfolding new_invoice_request
  new_invoice_request_total rs root allowed made rooted =
      rw (check_request-IsAllowed_from o amount quantity allowed) (
        ap {B = Result InvoiceRequest}
          (λ r. wrap r >>= λ qs. replace text (root_of_records b qs) >>= λ q.
            ok (record (request_for o amount quantity key note) { merkle_root = q }))
          made
        ∙ rw rooted)

  -- Of an offer with a minimum quantity and no maximum, no invoice can be requested at all: every request is
  -- refused, whatever its amount and its quantity.
  pub new_invoice_request-no_maximum :
      o.quantity_min ≢ 0
      → o.quantity_max ≡ 0
      → (i : InvoiceRequest) → new_invoice_request b o amount quantity key note ≢ ok i
  new_invoice_request-no_maximum has_min no_max i h = elim (new_invoice_request-IsAllowed i h).0.1 [
    | inl (none_min, q) ↦ has_min none_min
    | inr (m, has_max, low, high) ↦ has_max no_max
  ]
