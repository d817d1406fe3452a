-- ===== src/Lnwire/Payload/Final.antt =====
-- The final hop payloads of an onion message, and the message's wire format.
use mathlib.Core.List.{append_assoc, Perm}
use mathlib.Core.List.Perm
use boltnd.Prelude.{
  ℕ, ◌%◌, ◌≤◌, ◌<◌, ◌≡◌, ◌≢◌, refl, List, [], ◌∷◌, ◌++◌, map, length, All, All-append, arith, ◌==◌,
  Bytes, false, Bool-cases, inl, inr, ltb, Option, none, some, ◌||◌,
}
use boltnd.Prelude.Errors.{ok, wrap, wrap-eq-ok, ok-injective, >>=-eq-ok}
use boltnd.Lnwire.Tlv.{Tlv, Record, ReadsBack}
use boltnd.Lnwire.Payload.{
  FinalHopPayload, OnionMessagePayload, OnionMessage, validate_final_payload, final_records,
  encode_onion_message_payload, insert_payload, sort_payloads, unknown_payloads, known_payload,
  final_payloads, map_bytes, is_known, find_value, bytes_record, encode_onion_message,
  decode_onion_message, invoice_namespace_type, invoice_request_namespace_type,
}

final_records-All :
    (ps : List FinalHopPayload) (rs : List Record)
    → final_records ps ≡ ok rs
    → All (λ p. 64 ≤ p.tlv_type) ps
unfolding final_records validate_final_payload
final_records-All [] rs h = tt
final_records-All (p ∷ ps) rs h =
    let (u, e, h₁) = >>=-eq-ok (validate_final_payload p.tlv_type) _ h in
    let (later, e₁, h₂) = >>=-eq-ok (final_records ps) _ h₁ in
    (ground arith, final_records-All ps later e₁)

final_records_total :
    (ps : List FinalHopPayload)
    → All (λ p. 64 ≤ p.tlv_type) ps
    → final_records ps ≡ ok (map (λ p. bytes_record p.tlv_type p.value) ps)
unfolding final_records validate_final_payload
final_records_total [] h = refl
final_records_total (p ∷ ps) h = rw (final_records_total ps h.1) (ground arith)

-- A payload that is encoded has no final hop payload of a type below 64.
pub encode_onion_message_payload-All :
    (tlv : Tlv) (o : OnionMessagePayload) (b : Bytes)
    → encode_onion_message_payload tlv o ≡ ok b
    → All (λ p. 64 ≤ p.tlv_type) o.final_hop_payloads
unfolding encode_onion_message_payload
encode_onion_message_payload-All tlv o b h =
    let (rs, e, h₁) = >>=-eq-ok (final_records o.final_hop_payloads) _ h in
    final_records-All o.final_hop_payloads rs e

-- The types do not fall.
abbrev pub IsSortedPayloads : List FinalHopPayload → Type 0
IsSortedPayloads [] = Unit
IsSortedPayloads (p ∷ ps) = All (λ q. p.tlv_type ≤ q.tlv_type) ps × IsSortedPayloads ps

insert_payload-perm :
    (p : FinalHopPayload) (qs : List FinalHopPayload) → Perm (insert_payload p qs) (p ∷ qs)
unfolding insert_payload
insert_payload-perm p [] = Perm.refl _
insert_payload-perm p (q ∷ qs) = elim (Bool-cases (ltb q.tlv_type p.tlv_type)) [
  | inl t ↦ rw t (Perm.trans (Perm.cons q (insert_payload-perm p qs)) (Perm.swap p q qs))
  | inr f ↦ rw f (Perm.refl _)
]

sort_payloads-perm : (ps : List FinalHopPayload) → Perm (sort_payloads ps) ps
unfolding sort_payloads
sort_payloads-perm [] = Perm.refl _
sort_payloads-perm (p ∷ ps) =
    Perm.trans (insert_payload-perm p (sort_payloads ps)) (Perm.cons p (sort_payloads-perm ps))

module _ (P : FinalHopPayload → Type 0) where
  insert_payload-All :
      (p : FinalHopPayload) (qs : List FinalHopPayload)
      → P p
      → All P qs
      → All P (insert_payload p qs)
  unfolding insert_payload
  insert_payload-All p [] h k = (h, tt)
  insert_payload-All p (q ∷ qs) h k = elim (Bool-cases (ltb q.tlv_type p.tlv_type)) [
    | inl t ↦ rw t (k.0, insert_payload-All p qs h k.1)
    | inr f ↦ rw f (h, k)
  ]

  sort_payloads-All : (ps : List FinalHopPayload) → All P ps → All P (sort_payloads ps)
  unfolding sort_payloads
  sort_payloads-All [] h = tt
  sort_payloads-All (p ∷ ps) h =
      insert_payload-All p (sort_payloads ps) h.0 (sort_payloads-All ps h.1)

All-le_trans :
    (m n : ℕ) (ps : List FinalHopPayload)
    → m ≤ n
    → All (λ q. n ≤ q.tlv_type) ps
    → All (λ q. m ≤ q.tlv_type) ps
All-le_trans m n [] h k = tt
All-le_trans m n (p ∷ ps) h k = (omega arith, All-le_trans m n ps h k.1)

insert_payload-IsSorted :
    (p : FinalHopPayload) (qs : List FinalHopPayload)
    → IsSortedPayloads qs
    → IsSortedPayloads (insert_payload p qs)
unfolding insert_payload
insert_payload-IsSorted p [] h = (tt, tt)
insert_payload-IsSorted p (q ∷ qs) h = elim (Bool-cases (ltb q.tlv_type p.tlv_type)) [
  | inl t ↦ rw t (
    insert_payload-All (λ r. q.tlv_type ≤ r.tlv_type) p qs (ground arith) h.0,
    insert_payload-IsSorted p qs h.1,
  )
  | inr f ↦ rw f ((ground arith, All-le_trans p.tlv_type q.tlv_type qs (ground arith) h.0), h)
]

sort_payloads-IsSorted : (ps : List FinalHopPayload) → IsSortedPayloads (sort_payloads ps)
unfolding sort_payloads
sort_payloads-IsSorted [] = tt
sort_payloads-IsSorted (p ∷ ps) =
    insert_payload-IsSorted p (sort_payloads ps) (sort_payloads-IsSorted ps)

unknown_payloads-All :
    (entries : List (ℕ × Bytes)) → All (λ p. 64 ≤ p.tlv_type) (unknown_payloads entries)
unfolding unknown_payloads
unknown_payloads-All [] = tt
unknown_payloads-All ((t, v) ∷ rest) = elim (Bool-cases (ltb t 64 || length (map_bytes t v) == 0)) [
  | inl skipped ↦ rw skipped (unknown_payloads-All rest)
  | inr kept ↦ rw kept (ground arith, unknown_payloads-All rest)
]

known_payload-All :
    (t : ℕ) (entries : List (ℕ × Bytes))
    → 64 ≤ t
    → All (λ p. 64 ≤ p.tlv_type) (known_payload t entries)
unfolding known_payload
known_payload-All t entries h = go (find_value t entries)
  where
    go :
        (o : Option Bytes)
        → All
            (λ (p : FinalHopPayload). 64 ≤ p.tlv_type)
            (elim o [ none ↦ [] | some v ↦ record { tlv_type = t; value = v } ∷ [] ])
    go none = tt
    go (some v) = (h, tt)

-- The final hop payloads of a decoded message have types from 64 on, do not fall in type, and are
-- the unknown ones that have a value together with the invoice and the invoice request.
pub final_payloads-IsSorted :
    (entries : List (ℕ × Bytes))
    → All (λ p. 64 ≤ p.tlv_type) (final_payloads entries)
      × IsSortedPayloads (final_payloads entries)
      × Perm (final_payloads entries) (
          unknown_payloads entries
          ++ (known_payload invoice_namespace_type entries
              ++ known_payload invoice_request_namespace_type entries))
unfolding final_payloads
final_payloads-IsSorted entries = (
  sort_payloads-All (λ p. 64 ≤ p.tlv_type) parts
      (All-append _ (unknown_payloads entries) _ (unknown_payloads-All entries) (
        All-append _ (known_payload invoice_namespace_type entries) _
          (known_payload-All _ entries (omega arith)) (known_payload-All _ entries (omega arith)))),
  sort_payloads-IsSorted parts,
  sort_payloads-perm parts,
)
  where
    parts : List FinalHopPayload
    parts =
        unknown_payloads entries
        ++ (known_payload invoice_namespace_type entries
            ++ known_payload invoice_request_namespace_type entries)

unknown_payloads-append :
    (xs ys : List (ℕ × Bytes))
    → unknown_payloads (xs ++ ys) ≡ unknown_payloads xs ++ unknown_payloads ys
unfolding unknown_payloads
unknown_payloads-append [] ys = refl
unknown_payloads-append ((t, v) ∷ xs) ys = ground (arith, unknown_payloads-append xs ys)

find_value-skip :
    (k t : ℕ) (v : Bytes) (xs ys : List (ℕ × Bytes))
    → k ≢ t
    → find_value k (xs ++ (t, v) ∷ ys) ≡ find_value k (xs ++ ys)
unfolding find_value
find_value-skip k t v [] ys h = ground arith
find_value-skip k t v ((u, w) ∷ xs) ys h = ground (arith, find_value-skip k t v xs ys h)

known_payload-skip :
    (k t : ℕ) (v : Bytes) (xs ys : List (ℕ × Bytes))
    → k ≢ t
    → known_payload k (xs ++ (t, v) ∷ ys) ≡ known_payload k (xs ++ ys)
unfolding known_payload
known_payload-skip k t v xs ys h = rw (find_value-skip k t v xs ys h, known_payload)

-- A marker tlv, one of an unknown type with an empty value, leaves no trace in the final hop payloads.
pub final_payloads-marker :
    (t : ℕ) (xs ys : List (ℕ × Bytes))
    → is_known t ≡ false
    → final_payloads (xs ++ (t, []) ∷ ys) ≡ final_payloads (xs ++ ys)
final_payloads-marker t xs ys unknown =
    unfold final_payloads in
    rw (
      unknown_payloads-append xs ((t, []) ∷ ys),
      known_payload-skip invoice_namespace_type t [] xs ys (λ e. unfold is_known in ground arith),
      known_payload-skip invoice_request_namespace_type t [] xs ys
          (λ e. unfold is_known in ground arith),
      skip,
      ← unknown_payloads-append xs ys,
    )
  where
    skip : unknown_payloads ((t, []) ∷ ys) ≡ unknown_payloads ys
    skip = unfold unknown_payloads in ground arith

-- Where the decoders read what the encoders wrote, a message whose blob has fewer than 65536 bytes
-- is read back from its encoding, whatever follows it.
pub decode-encode_onion_message :
    (tlv : Tlv) (o : OnionMessage) (b : Bytes)
    → ReadsBack tlv
    → length o.onion_blob < 65536
    → encode_onion_message tlv o ≡ ok b
    → (rest : Bytes) → decode_onion_message tlv (b ++ rest) ≡ ok o
unfolding encode_onion_message decode_onion_message
decode-encode_onion_message tlv o b reads fits h rest =
    let (blinding, e₁, h₁) = >>=-eq-ok (wrap (tlv.e_pub_key o.blinding_point)) _ h in
    let (len, e₂, h₂) = >>=-eq-ok (wrap (tlv.e_uint16 (length o.onion_blob % 65536))) _ h₁ in
    let (blob, e₃, h₃) = >>=-eq-ok (wrap (tlv.e_var_bytes o.onion_blob)) _ h₂ in
    let short : length o.onion_blob % 65536 ≡ length o.onion_blob = omega arith in
    rw (← ok-injective h₃, append_assoc blinding (len ++ blob) rest, append_assoc len blob rest)
      (rw (reads.pub_key o.blinding_point blinding (len ++ (blob ++ rest)) (wrap-eq-ok _ e₁)) (
        rw
          (reads.uint16 (length o.onion_blob) len (blob ++ rest) fits
            (rw short at (wrap-eq-ok _ e₂)))
          (rw (reads.var_bytes o.onion_blob blob rest (wrap-eq-ok _ e₃)))))
