-- ===== src/Lnwire/InvoiceRequest/Signing.antt =====
-- Invoice requests that are made, signed, encoded and decoded again.
use mathlib.Core.Logic.Or
use mathlib.Core.Path.{subst}
use mathlib.Core.List.{Mem, Pairwise, Pairwise-cons, mem-cons, not-mem-nil, append-nil}
use mathlib.Core.List.Perm
use native.Mathlib.Bridge.{le_prop}
use boltnd.Prelude.{
  ℕ, suc, ◌≤◌, ◌<◌, ◌≡◌, ◌≢◌, refl, sym, ap, ◌∙◌, Option, none, some, List, [], ◌∷◌, ◌++◌, length,
  Bytes, All, arith, Bool-cases, inl, inr, true,
}
use boltnd.Prelude.Errors.{ok}
use boltnd.Lnwire.Tlv.{PubKey, Record}
use boltnd.Lnwire.Merkle.{is_signature_tlv}
use boltnd.Lnwire.Merkle.Leaves.{unsigned}
use boltnd.Lnwire.Merkle.Rising.{Sorts, Distinct, select-Pairwise}
use boltnd.Lnwire.Merkle.Commitment.{merkle_root-unsigned}
use boltnd.Lnwire.Bolt12.{Bolt12, Features, gather, root_of_records, zero_hash, array_record}
use boltnd.Lnwire.Bolt12.Fields.{AreFields, Rising}
use boltnd.Lnwire.Bolt12.Values.{Reads}
use boltnd.Lnwire.Bolt12.Signed.{Signs}
use boltnd.Lnwire.Offer.{Offer}
use boltnd.Lnwire.InvoiceRequest.{
  InvoiceRequest, invoice_request_types, invoice_request_fields, invoice_request_records,
  new_invoice_request, encode_invoice_request, decode_invoice_request, validate_invoice_request,
  invoice_request_digest, inv_req_signature_type,
}
use boltnd.Lnwire.InvoiceRequest.Valid.{validate_invoice_request-IsValid}
use boltnd.Lnwire.InvoiceRequest.Quantity.{new_invoice_request-IsAllowed}
use boltnd.Lnwire.InvoiceRequest.RoundTrip.{
  IsEncodable, HasRoot, types-Rising, invoice_request_records-parts,
  invoice_request_fields-AreFields, decode-encode_invoice_request,
}

gather-append : (xs ys : List (Option Record)) → gather (xs ++ ys) ≡ gather xs ++ gather ys
unfolding gather
gather-append [] ys = refl
gather-append (none ∷ xs) ys = gather-append xs ys
gather-append (some r ∷ xs) ys = ap (λ rs. r ∷ rs) (gather-append xs ys)

unsigned-append : (rs ss : List Record) → unsigned (rs ++ ss) ≡ unsigned rs ++ unsigned ss
unsigned-append [] ss = refl
unsigned-append (r ∷ rs) ss = elim (Bool-cases (is_signature_tlv r)) [
  | inl t ↦ rw t (unsigned-append rs ss)
  | inr f ↦ rw (f, unsigned-append rs ss)
]

gather-above :
    (n : ℕ) (ts : List ℕ) (os : List (Option Record))
    → AreFields ts os
    → All (λ t. n < t) ts
    → (s : Record) → Mem s (gather os)
    → suc n ≤ s.tlv_type
unfolding gather
gather-above n [] [] h k s m = absurd (not-mem-nil m)
gather-above n [] (o ∷ os) h k s m = absurd h
gather-above n (t ∷ ts) [] h k s m = absurd h
gather-above n (t ∷ ts) (none ∷ os) h k s m = gather-above n ts os h.1 k.1 s m
gather-above n (t ∷ ts) (some r ∷ os) h k s m =
    Or.elim le_prop (mem-cons.0 m) (λ e. rw (e, h.0.0) (omega (arith, k.0)))
      (λ later. gather-above n ts os h.1 k.1 s later)

gather-Distinct :
    (ts : List ℕ) (os : List (Option Record)) → AreFields ts os → Rising ts → Distinct (gather os)
unfolding gather
gather-Distinct [] [] h k = Pairwise.nil
gather-Distinct [] (o ∷ os) h k = absurd h
gather-Distinct (t ∷ ts) [] h k = absurd h
gather-Distinct (t ∷ ts) (none ∷ os) h k = gather-Distinct ts os h.1 k.1
gather-Distinct (t ∷ ts) (some r ∷ os) h k = Pairwise-cons.1 (
  λ s m e.
      let above = gather-above t ts os h.1 k.0 s m in
      let same : s.tlv_type ≡ t = sym e ∙ h.0.0 in omega (arith, above, same),
  gather-Distinct ts os h.1 k.1,
)

abbrev front : List (Option Record) → List (Option Record)
front [] = []
front (o ∷ []) = []
front (o ∷ p ∷ os) = o ∷ front (p ∷ os)

last_field :
    (os : List (Option Record)) (r : Record)
    → gather (os ++ some r ∷ []) ≡ gather (os ++ none ∷ []) ++ r ∷ []
unfolding gather
last_field os r =
    rw (gather-append os (some r ∷ []), gather-append os (none ∷ []), append-nil (gather os))

-- The request with a signature.
abbrev pub sign : Bytes → InvoiceRequest → InvoiceRequest
sign s i = record i { signature = some s }

module _ (b : Bolt12) (sorts : Sorts b.tlv.sort_records) where
  -- The records of a request and one more record that is a signature have the same root.
  root_of_records-signed :
      (rs : List Record) (s : Record)
      → Distinct rs
      → is_signature_tlv s ≡ true
      → root_of_records b (rs ++ s ∷ []) ≡ root_of_records b rs
  unfolding root_of_records
  root_of_records-signed rs s distinct signature =
      let nothing : unsigned (s ∷ []) ≡ [] = rw signature in
      let same : unsigned rs ≡ unsigned (rs ++ s ∷ []) =
        sym (unsigned-append rs (s ∷ []) ∙ (rw nothing (append-nil (unsigned rs)))) in
      sym (
        merkle_root-unsigned b.tlv.sort_records b.tlv.write_var_int b.make_hash b.tagged_hash sorts
          rs (rs ++ s ∷ []) (select-Pairwise _ _ rs distinct)
          (rw (← same) (Perm.refl (unsigned rs))))

  module _ (laws : Reads b) (i : InvoiceRequest) (fs : Features) (valid : IsEncodable b i fs)
      (bare : i.signature ≡ none) where
    sign_fields :
        (s : Bytes) (f : Option Record)
        → gather (invoice_request_fields b (sign s i) f)
          ≡ gather (invoice_request_fields b i f) ++ array_record 64 inv_req_signature_type s ∷ []
    unfolding invoice_request_fields
    sign_fields s f = rw bare (
        last_field (front (invoice_request_fields b i f))
          (array_record 64 inv_req_signature_type s))

    sign-HasRoot : (s : Bytes) → HasRoot b i → HasRoot b (sign s i)
    unfolding invoice_request_records is_signature_tlv
    sign-HasRoot s (rs, made, root) =
        let sig = array_record 64 inv_req_signature_type s in
        let (f, bits, gathered) = invoice_request_records-parts b laws i fs valid rs made in
        let signed : invoice_request_records b (sign s i) ≡ ok (rs ++ sig ∷ []) =
          rw (valid.features, bits)
            (ap ok (sign_fields s f ∙ ap (λ qs. qs ++ sig ∷ []) (sym gathered))) in
        let distinct : Distinct rs = subst Distinct (sym gathered) (
          gather-Distinct invoice_request_types (invoice_request_fields b i f)
            (invoice_request_fields-AreFields b laws i fs valid f bits) types-Rising) in
        (rs ++ sig ∷ [], signed, root_of_records-signed rs sig distinct refl ∙ root)

    sign-IsEncodable : (s : Bytes) → length s ≡ 64 → IsEncodable b (sign s i) fs
    sign-IsEncodable s size = record {
      chainhash = valid.chainhash;
      offer_id = valid.offer_id;
      amount = valid.amount;
      features = valid.features;
      feature_bits = valid.feature_bits;
      quantity = valid.quantity;
      payer_key = valid.payer_key;
      signature = size;
      merkle_root = valid.merkle_root;
    }

  module _ (laws : Reads b) (o : Offer) (amount quantity : ℕ) (key : PubKey) (note : Bytes) where
    -- Where lnd's codecs read back what they wrote, the request's hashes have 32 bytes, its integers fit in 64 bits, its
    -- features are a set of bits and not nil, its merkle root has 32 bytes, the payer's key is the one that its x
    -- coordinate stands for, so of even Y, and the signature has 64 bytes: a request that is made for an offer with a root other than zeros, and that is given a signature by the payer's
    -- key of the digest that SignatureDigest returned before, is decoded to itself once encoded, and accepted by
    -- Validate.
    pub new_invoice_request-signed :
        (i : InvoiceRequest) (fs : Features) (s v : Bytes)
        → new_invoice_request b o amount quantity (some key) note ≡ ok i
        → IsEncodable b i fs
        → o.merkle_root ≢ zero_hash
        → length s ≡ 64
        → Signs b key (invoice_request_digest b i) s
        → encode_invoice_request b (sign s i) ≡ ok v
        → (decode_invoice_request b v ≡ ok (sign s i))
          × (validate_invoice_request b (sign s i) ≡ ok tt)
    unfolding invoice_request_digest
    new_invoice_request-signed i fs s v made valid has_root size signs encoded =
        let (allowed, built, rooted) =
          new_invoice_request-IsAllowed b o amount quantity (some key) note i made in
        let bare : i.signature ≡ none = ap (λ j. j.signature) built in
        let id : i.offer_id ≡ o.merkle_root = ap (λ j. j.offer_id) built in
        let payer : i.payer_key ≡ some key = ap (λ j. j.payer_key) built in
        (
          decode-encode_invoice_request b laws (sign s i) fs
              (sign-IsEncodable laws i fs valid bare s size) v
              (sign-HasRoot laws i fs valid bare s rooted) encoded,
          (validate_invoice_request-IsValid b (sign s i)).1
              (λ e. has_root (sym id ∙ e), (key, s, payer, refl, signs)),
        )
