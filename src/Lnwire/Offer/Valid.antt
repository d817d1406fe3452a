-- ===== src/Lnwire/Offer/Valid.antt =====
-- What the method Validate of an offer accepts.
use boltnd.Prelude.{
  ℕ, ◌≤◌, ◌≡◌, ◌⊎◌, ◌↔◌, inl, inr, Option, none, some, length, not, ◌&&◌, ltb, ◌==◌, arith,
  Bool-cases, true,
}
use boltnd.Prelude.Errors.{ok, wrapped, quantity_range, description_required, >>=-eq-ok, guard}
use boltnd.Lnwire.Tlv.{PubKey}
use boltnd.Lnwire.Bolt12.{Bolt12, signature_digest, offer_tag, signature_tag}
use boltnd.Lnwire.Bolt12.Signed.{SignsIfAny, validate_optional-SignsIfAny, guard-eq-ok}
use boltnd.Lnwire.Offer.{Offer, node_id_of, validate_offer}

pub node_id_of-eq-ok : (o : Option PubKey) (k : PubKey) → node_id_of o ≡ ok k → o ≡ some k
unfolding node_id_of
node_id_of-eq-ok none k h = cc
node_id_of-eq-ok (some l) k h = cc

-- An offer with a node and a description, whose quantity bounds are in order, where it has both, and whose
-- signature, if it has one, is the node's for the offer's root.
abbrev pub IsValid : Bolt12 → Offer → Type 0
IsValid b o =
    (k : PubKey) × (o.node_id ≡ some k)
    × (1 ≤ length o.description)
    × ((o.quantity_min ≡ 0) ⊎ (o.quantity_max ≡ 0) ⊎ (o.quantity_min ≤ o.quantity_max))
    × SignsIfAny b k (signature_digest b offer_tag signature_tag o.merkle_root) o.signature

in_order :
    (low high : ℕ)
    → not (not (low == 0) && not (high == 0) && ltb high low) ≡ true
    → (low ≡ 0) ⊎ (high ≡ 0) ⊎ (low ≤ high)
in_order low high h = elim (Bool-cases (low == 0)) [
  | inl e ↦ inl (ground arith)
  | inr e ↦ elim (Bool-cases (high == 0)) [
    | inl f ↦ inr (inl (ground arith))
    | inr f ↦ inr (inr (ground arith))
  ]
]

order_test :
    (low high : ℕ)
    → (low ≡ 0) ⊎ (high ≡ 0) ⊎ (low ≤ high)
    → not (not (low == 0) && not (high == 0) && ltb high low) ≡ true
order_test low high (inl e) = ground arith
order_test low high (inr (inl e)) = ground arith
order_test low high (inr (inr e)) = ground arith

-- Validate accepts exactly the offers that have a node and a description, whose quantity bounds are in order,
-- where both are set, and whose signature, where there is one, is the node's for the offer's root.
pub validate_offer-IsValid : (b : Bolt12) (o : Offer) → (validate_offer b o ≡ ok tt) ↔ IsValid b o
unfolding validate_offer
validate_offer-IsValid b o = (
  λ h.
      let (k, has_key, h₁) = >>=-eq-ok (node_id_of o.node_id) _ h in
      let (u, described, h₂) =
        >>=-eq-ok (guard (not (length o.description == 0)) description_required) _ h₁ in
      let (w, ordered, h₃) =
        >>=-eq-ok
          (guard
            (not (
              not (o.quantity_min == 0)
              && not (o.quantity_max == 0)
              && ltb o.quantity_max o.quantity_min))
            (wrapped quantity_range))
          _ h₂ in
      let some_bytes : not (length o.description == 0) ≡ true = guard-eq-ok _ _ described in
      (
        k,
        node_id_of-eq-ok o.node_id k has_key,
        ground arith,
        in_order o.quantity_min o.quantity_max (guard-eq-ok _ _ ordered),
        (validate_optional-SignsIfAny b k _ o.signature).0 h₃,
      ),
  λ (k, has_key, described, ordered, signed).
      let some_bytes : not (length o.description == 0) ≡ true = ground arith in
      rw (has_key, some_bytes, order_test o.quantity_min o.quantity_max ordered)
        ((validate_optional-SignsIfAny b k _ o.signature).1 signed),
)
