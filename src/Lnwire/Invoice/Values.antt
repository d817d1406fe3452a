-- ===== src/Lnwire/Invoice/Values.antt =====
-- The values that only invoices have: keys of 33 bytes, and integers of eight.
use boltnd.Prelude.{
  ℕ, ◌*◌, ◌^◌, ◌<◌, ◌≡◌, ◌≢◌, refl, ap, Option, none, some, ◌==◌, Bytes, arith, Bool-cases, inl,
  inr,
}
use boltnd.Prelude.Errors.{ok}
use boltnd.Lnwire.Tlv.{PubKey}
use boltnd.Lnwire.Bolt12.{Bolt12, zero_time_seconds, read_or, time_if}
use boltnd.Lnwire.Bolt12.Fields.{IsField, Match}
use boltnd.Lnwire.Bolt12.Values.{Reads, ReadsAs, unix-some}
use boltnd.Lnwire.Invoice.{
  uint64_record, uint64_field, created_field, expiry_field, expiry_if, key_field, read_key,
}

-- A time that a uint64 stands for.
abbrev pub IsCreated : Option ℕ → Type 0
IsCreated none = Unit
IsCreated (some s) = (s < 2 ^ 64) × (s ≢ zero_time_seconds)

-- A duration of whole seconds.
abbrev pub IsSeconds : ℕ → Type 0
IsSeconds d = (n : ℕ) × (d ≡ n * 1000000000) × (n * 1000000000 < 2 ^ 63)

module _ (b : Bolt12) (laws : Reads b) where
  uint64_record-IsField : (t n : ℕ) → n < 2 ^ 64 → IsField t (some (uint64_record b t n))
  uint64_record-IsField t n high = (refl, λ v e. (laws.uint64 n v high e).0)

  pub uint64_field-IsField : (t n : ℕ) → n < 2 ^ 64 → IsField t (uint64_field b t n)
  unfolding uint64_field
  uint64_field-IsField t n high = elim (Bool-cases (n == 0)) [
    | inl e ↦ rw e tt
    | inr e ↦ rw e (uint64_record-IsField t n high)
  ]

  pub uint64_field-read :
      (t n : ℕ) (w : Option Bytes)
      → n < 2 ^ 64
      → Match (uint64_field b t n) w
      → read_or 0 b.d_uint64 w ≡ ok n
  unfolding uint64_field read_or
  uint64_field-read t n w high m = elim (Bool-cases (n == 0)) [
    | inl e ↦ absent (ground arith) w (rw e at m)
    | inr e ↦ present w (rw e at m)
  ]
    where
      absent : 0 ≡ n → (w : Option Bytes) → Match none w → read_or 0 b.d_uint64 w ≡ ok n
      absent same none m = ap ok same
      absent same (some v) m = absurd m

      present :
          (w : Option Bytes) → Match (some (uint64_record b t n)) w → read_or 0 b.d_uint64 w ≡ ok n
      present none m = absurd m
      present (some v) m = (laws.uint64 n v high m).1

  pub created_field-IsField :
      (t : ℕ) (time : Option ℕ) → IsCreated time → IsField t (created_field b t time)
  unfolding created_field
  created_field-IsField t none h = tt
  created_field-IsField t (some s) (high, ne) = uint64_record-IsField t s high

  pub created_field-read :
      (t : ℕ) (time : Option ℕ) (w : Option Bytes)
      → IsCreated time
      → Match (created_field b t time) w
      → ReadsAs 0 b.d_uint64 time_if w time
  unfolding created_field read_or time_if
  created_field-read t none none h m = (0, refl, refl)
  created_field-read t none (some v) h m = absurd m
  created_field-read t (some s) none h m = absurd m
  created_field-read t (some s) (some v) (high, ne) m =
      (s, (laws.uint64 s v high m).1, unix-some s ne)

  pub expiry_field-IsField : (t d : ℕ) → IsSeconds d → IsField t (expiry_field b t d)
  unfolding expiry_field
  expiry_field-IsField t d (n, whole, high) = elim (Bool-cases (d == 0)) [
    | inl e ↦ rw e tt
    | inr e ↦ rw (e, whole, laws.seconds n high) (uint64_record-IsField t n (omega arith))
  ]

  pub expiry_field-read :
      (t d : ℕ) (w : Option Bytes)
      → IsSeconds d
      → Match (expiry_field b t d) w
      → ReadsAs 0 b.d_uint64 expiry_if w d
  unfolding expiry_field read_or expiry_if
  expiry_field-read t d w (n, whole, high) m = elim (Bool-cases (d == 0)) [
    | inl e ↦ absent (ground arith) w (rw e at m)
    | inr e ↦ present w (rw e at m)
  ]
    where
      absent : 0 ≡ d → (w : Option Bytes) → Match none w → ReadsAs 0 b.d_uint64 expiry_if w d
      absent same none m = (0, refl, same)
      absent same (some v) m = absurd m

      present :
          (w : Option Bytes)
          → Match (some (uint64_record b t (b.seconds d))) w
          → ReadsAs 0 b.d_uint64 expiry_if w d
      present none m = absurd m
      present (some v) m =
          let exact : b.seconds d ≡ n = rw whole (laws.seconds n high) in
          (n, (laws.uint64 n v (omega arith) (rw exact at m)).1, omega arith)

  pub key_field-IsField : (t : ℕ) (key : Option PubKey) → IsField t (key_field b t key)
  unfolding key_field
  key_field-IsField t none = tt
  key_field-IsField t (some k) = (refl, λ v e. (laws.pub_key k v e).0)

  pub key_field-read :
      (t : ℕ) (key : Option PubKey) (w : Option Bytes)
      → Match (key_field b t key) w
      → read_key b w ≡ ok key
  unfolding key_field read_key
  key_field-read t none none m = refl
  key_field-read t none (some v) m = absurd m
  key_field-read t (some k) none m = absurd m
  key_field-read t (some k) (some v) m = rw (laws.pub_key k v m).1
