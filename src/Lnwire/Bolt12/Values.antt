-- ===== src/Lnwire/Bolt12/Values.antt =====
-- The values of a message's fields, written and read again.
use mathlib.Core.List.{Perm}
use boltnd.Prelude.{
  ℕ, zero, suc, ◌*◌, ◌^◌, ◌≤◌, ◌<◌, ◌≡◌, ◌≢◌, refl, sym, ap, true, false, ◌&&◌, leb, Option, none,
  some, List, [], ◌∷◌, length, ◌==◌, Bytes, arith, Bool-cases, inl, inr,
}
use boltnd.Prelude.Bytes.{bytes_eq, bytes_eq-eq}
use boltnd.Prelude.Errors.{Result, ok, ok-injective}
use boltnd.Lnwire.Tlv.{PubKey}
use boltnd.Lnwire.Payload.{bytes_or_nil, bytes_record}
use boltnd.Lnwire.Bolt12.{
  Bolt12, Features, copy_into, zero_hash, hash_field, text_field, signature_field, array_record,
  zero_time_seconds, unix, read_or, time_if, signature_if, tu64_record, tu64_field, decode_tu64,
  time_field, x_only_field, hash_if, x_only_if,
}
use boltnd.Lnwire.Bolt12.Fields.{Streams, IsField, Match, Rising}

-- What the messages rely on: streams and values are read as they were written.
pub record Reads (b : Bolt12) : Type 0 where
  pub streams : Streams b.tlv
  pub tuint64 :
      (n : ℕ) (v : Bytes)
      → 1 ≤ n
      → n < 2 ^ 64
      → b.e_tuint64 n ≡ ok v
      → (1 ≤ length v)
        × (length v ≤ 8)
        × (length v ≡ b.size_tuint64 n)
        × (b.d_tuint64 (length v) v ≡ ok n)
  pub uint64 :
      (n : ℕ) (v : Bytes)
      → n < 2 ^ 64
      → b.e_uint64 n ≡ ok v
      → (length v ≡ 8) × (b.d_uint64 v ≡ ok n)
  pub pub_key :
      (k : PubKey) (v : Bytes)
      → b.tlv.e_pub_key k ≡ ok v
      → (length v ≡ 33) × (b.tlv.d_pub_key v ≡ ok (k, []))
  pub bytes32 : (v : Bytes) → length v ≡ 32 → b.d_bytes32 v ≡ ok v
  pub bytes64 : (v : Bytes) → length v ≡ 64 → b.d_bytes64 v ≡ ok v
  pub make_hash : (v : Bytes) → length v ≡ 32 → b.make_hash v ≡ ok v
  pub features :
      (fs : Features) (v : Bytes)
      → Rising fs
      → b.features_encode fs ≡ ok v
      → b.features_decode v ≡ ok fs
  pub seconds : (n : ℕ) → n * 1000000000 < 2 ^ 63 → b.seconds (n * 1000000000) ≡ n
  pub map_order : (es : List (ℕ × Bytes)) → Perm (b.map_order es) es

pub length-copy_into : (n : ℕ) (v : Bytes) → length (copy_into n v) ≡ n
unfolding copy_into
length-copy_into zero v = refl
length-copy_into (suc n) [] = ap suc (length-copy_into n [])
length-copy_into (suc n) (x ∷ v) = ap suc (length-copy_into n v)

-- A value that is read first and converted afterwards.
abbrev pub ReadsAs {ℓ κ} :
    {A : Type ℓ} {B : Type κ}
    → A
    → (Bytes → Result A)
    → (Option Bytes → A → B)
    → Option Bytes
    → B
    → Type (ℓ ⊔ κ)
ReadsAs {A = A} z d f w x = (s : A) × (read_or z d w ≡ ok s) × (f w s ≡ x)

-- A time that a truncated uint64 other than 0 stands for.
abbrev pub IsTime : Option ℕ → Type 0
IsTime none = Unit
IsTime (some s) = (1 ≤ s) × (s < 2 ^ 64) × (s ≢ zero_time_seconds)

abbrev pub IsSignature : Option Bytes → Type 0
IsSignature none = Unit
IsSignature (some s) = length s ≡ 64

pub unix-some : (s : ℕ) → s ≢ zero_time_seconds → unix s ≡ some s
unfolding unix
unix-some s h = let other : (s == zero_time_seconds) ≡ false = ground arith in rw other

module _ (b : Bolt12) where
  -- A key that its x coordinate stands for.
  abbrev pub IsXOnly : Option PubKey → Type 0
  unfolding copy_into
  IsXOnly none = Unit
  IsXOnly (some k) = b.parse_pub_key (copy_into 32 (b.serialize_pub_key k)) ≡ ok k

  module _ (laws : Reads b) where
    pub hash_field-IsField : (t : ℕ) (h : Bytes) → length h ≡ 32 → IsField t (hash_field t h)
    unfolding hash_field
    hash_field-IsField t h size = elim (Bool-cases (bytes_eq h zero_hash)) [
      | inl zeros ↦ rw zeros tt
      | inr other ↦ rw other (refl, λ v e. rw (← ok-injective e) size)
    ]

    pub hash_field-read :
        (t : ℕ) (h : Bytes) (w : Option Bytes)
        → length h ≡ 32
        → Match (hash_field t h) w
        → ReadsAs zero_hash b.d_bytes32 (hash_if b) w (ok h)
    unfolding hash_field read_or hash_if
    hash_field-read t h w size m = elim (Bool-cases (bytes_eq h zero_hash)) [
      | inl zeros ↦ absent (bytes_eq-eq h zero_hash zeros) w (rw zeros at m)
      | inr other ↦ present w (rw other at m)
    ]
      where
        absent :
            h ≡ zero_hash
            → (w : Option Bytes) → Match none w
            → ReadsAs zero_hash b.d_bytes32 (hash_if b) w (ok h)
        absent same none m = (zero_hash, refl, ap ok (sym same))
        absent same (some v) m = absurd m

        present :
            (w : Option Bytes)
            → Match (some (array_record 32 t h)) w
            → ReadsAs zero_hash b.d_bytes32 (hash_if b) w (ok h)
        present none m = absurd m
        present (some v) m = rw (← ok-injective m) (h, laws.bytes32 h size, laws.make_hash h size)

    tu64_record-IsField : (t n : ℕ) → 1 ≤ n → n < 2 ^ 64 → IsField t (some (tu64_record b t n))
    tu64_record-IsField t n low high = (refl, λ v e. (laws.tuint64 n v low high e).2)

    decode_tu64_written :
        (n : ℕ) (v : Bytes) → 1 ≤ n → n < 2 ^ 64 → b.e_tuint64 n ≡ ok v → decode_tu64 b v ≡ ok n
    unfolding decode_tu64
    decode_tu64_written n v low high e =
        let (least, most, size, reads) = laws.tuint64 n v low high e in
        let fits : (leb 1 (length v) && leb (length v) 8) ≡ true = ground arith in rw fits reads

    pub tu64_field-IsField : (t n : ℕ) → n < 2 ^ 64 → IsField t (tu64_field b t n)
    unfolding tu64_field
    tu64_field-IsField t n high = elim (Bool-cases (n == 0)) [
      | inl e ↦ rw e tt
      | inr e ↦ rw e (tu64_record-IsField t n (ground arith) high)
    ]

    pub tu64_field-read :
        (t n : ℕ) (w : Option Bytes)
        → n < 2 ^ 64
        → Match (tu64_field b t n) w
        → read_or 0 (decode_tu64 b) w ≡ ok n
    unfolding tu64_field read_or
    tu64_field-read t n w high m = elim (Bool-cases (n == 0)) [
      | inl e ↦ absent (ground arith) w (rw e at m)
      | inr e ↦ present (ground arith) w (rw e at m)
    ]
      where
        absent : 0 ≡ n → (w : Option Bytes) → Match none w → read_or 0 (decode_tu64 b) w ≡ ok n
        absent same none m = ap ok same
        absent same (some v) m = absurd m

        present :
            1 ≤ n
            → (w : Option Bytes) → Match (some (tu64_record b t n)) w
            → read_or 0 (decode_tu64 b) w ≡ ok n
        present low none m = absurd m
        present low (some v) m = decode_tu64_written n v low high m

    pub text_field-IsField : (t : ℕ) (s : Bytes) → IsField t (text_field t s)
    unfolding text_field
    text_field-IsField t s = elim (Bool-cases (length s == 0)) [
      | inl e ↦ rw e tt
      | inr e ↦ rw e (refl, λ v e. rw (← ok-injective e))
    ]

    pub text_field-read :
        (t : ℕ) (s : Bytes) (w : Option Bytes) → Match (text_field t s) w → bytes_or_nil w ≡ s
    unfolding text_field
    text_field-read t s w m = elim (Bool-cases (length s == 0)) [
      | inl e ↦ absent s (ground arith) w (rw e at m)
      | inr e ↦ present w (rw e at m)
    ]
      where
        absent : (s : Bytes) → 0 ≡ length s → (w : Option Bytes) → Match none w → bytes_or_nil w ≡ s
        absent [] e none m = refl
        absent (x ∷ s) e none m = absurd (omega arith)
        absent s e (some v) m = absurd m

        present : (w : Option Bytes) → Match (some (bytes_record t s)) w → bytes_or_nil w ≡ s
        present none m = absurd m
        present (some v) m = sym (ok-injective m)

    pub time_field-IsField :
        (t : ℕ) (time : Option ℕ) → IsTime time → IsField t (time_field b t time)
    unfolding time_field
    time_field-IsField t none h = tt
    time_field-IsField t (some s) (low, high, ne) = tu64_record-IsField t s low high

    pub time_field-read :
        (t : ℕ) (time : Option ℕ) (w : Option Bytes)
        → IsTime time
        → Match (time_field b t time) w
        → ReadsAs 0 (decode_tu64 b) time_if w time
    unfolding time_field read_or time_if
    time_field-read t none none h m = (0, refl, refl)
    time_field-read t none (some v) h m = absurd m
    time_field-read t (some s) none h m = absurd m
    time_field-read t (some s) (some v) (low, high, ne) m =
        (s, decode_tu64_written s v low high m, unix-some s ne)

    pub x_only_field-IsField : (t : ℕ) (key : Option PubKey) → IsField t (x_only_field b t key)
    unfolding x_only_field
    x_only_field-IsField t none = tt
    x_only_field-IsField t (some k) =
        (refl, λ v e. rw (← ok-injective e) (length-copy_into 32 (b.serialize_pub_key k)))

    pub x_only_field-read :
        (t : ℕ) (key : Option PubKey) (w : Option Bytes)
        → IsXOnly key
        → Match (x_only_field b t key) w
        → ReadsAs zero_hash b.d_bytes32 (x_only_if b) w (ok key)
    unfolding x_only_field read_or x_only_if
    x_only_field-read t none none h m = (zero_hash, refl, refl)
    x_only_field-read t none (some v) h m = absurd m
    x_only_field-read t (some k) none h m = absurd m
    x_only_field-read t (some k) (some v) h m = rw (← ok-injective m) (
      copy_into 32 (b.serialize_pub_key k),
      laws.bytes32 _ (length-copy_into 32 (b.serialize_pub_key k)),
      rw h,
    )

    pub signature_field-IsField :
        (t : ℕ) (s : Option Bytes) → IsSignature s → IsField t (signature_field t s)
    unfolding signature_field
    signature_field-IsField t none h = tt
    signature_field-IsField t (some s) h = (refl, λ v e. rw (← ok-injective e) h)

    pub signature_field-read :
        (t : ℕ) (s : Option Bytes) (w : Option Bytes)
        → IsSignature s
        → Match (signature_field t s) w
        → ReadsAs (copy_into 64 []) b.d_bytes64 signature_if w s
    unfolding signature_field read_or signature_if
    signature_field-read t none none h m = (copy_into 64 [], refl, refl)
    signature_field-read t none (some v) h m = absurd m
    signature_field-read t (some s) none h m = absurd m
    signature_field-read t (some s) (some v) h m = rw (← ok-injective m) (s, laws.bytes64 s h, refl)
