-- ===== src/Lnwire/Bolt12/Fields.antt =====
-- The records of a message, field by field, and the entries of the stream that they are encoded as.
use mathlib.Core.Logic.Or
use mathlib.Core.List.{Mem, mem-cons, not-mem-nil}
use native.Mathlib.Bridge.{le_prop}
use boltnd.Prelude.{
  ℕ, ◌≤◌, ◌<◌, ◌≡◌, refl, ap, true, false, Option, none, some, List, [], ◌∷◌, length, ◌==◌, Bytes,
  if◌then◌else◌, All, arith, Bool-cases, inl, inr, ==_iff,
}
use boltnd.Prelude.Errors.{ok}
use boltnd.Lnwire.Tlv.{Record, Tlv}
use boltnd.Lnwire.Merkle.{last_bytes, unknown_records, unknown_records_from_parsed}
use boltnd.Lnwire.Payload.{find_value}
use boltnd.Lnwire.Bolt12.{gather, member, tlv_map}

-- What a record writes has the size that it announces.
abbrev pub Sized : Record → Type 0
Sized r = (v : Bytes) → r.value ≡ ok v → length v ≡ r.size

-- The entries of a stream are the types and the values of the records.
abbrev pub Holds : List Record → List (ℕ × Bytes) → Type 0
Holds [] [] = Unit
Holds [] (e ∷ es) = ⊥
Holds (r ∷ rs) [] = ⊥
Holds (r ∷ rs) ((t, v) ∷ es) = (r.tlv_type ≡ t) × (r.value ≡ ok v) × Holds rs es

-- A stream reads the records that a stream has written.
pub record Streams (tlv : Tlv) : Type 0 where
  pub reads_back :
      (known : List ℕ) (rs : List Record) (b : Bytes)
      → All Sized rs
      → tlv.new_stream rs ≡ ok tt
      → tlv.encode_stream rs ≡ ok b
      → (es : List (ℕ × Bytes)) × (tlv.decode_stream known b ≡ ok es) × Holds rs es

-- For each of some types, the value that a stream has for it.
abbrev pub Slots : List ℕ → Type 0
Slots [] = Unit
Slots (t ∷ ts) = Option Bytes × Slots ts

abbrev pub entries_of : (ts : List ℕ) → Slots ts → List (ℕ × Bytes)
entries_of [] ws = []
entries_of (t ∷ ts) (none, ws) = entries_of ts ws
entries_of (t ∷ ts) (some v, ws) = (t, v) ∷ entries_of ts ws

abbrev pub slot : ℕ → (ts : List ℕ) → Slots ts → Option Bytes
slot t [] ws = none
slot t (u ∷ ts) (w, ws) = let rest = slot t ts ws in if t == u then w else rest

-- A field of a message and the value that a stream has for it.
abbrev pub Match : Option Record → Option Bytes → Type 0
Match none none = Unit
Match none (some v) = ⊥
Match (some r) none = ⊥
Match (some r) (some v) = r.value ≡ ok v

abbrev pub Matches : (ts : List ℕ) → List (Option Record) → Slots ts → Type 0
Matches [] [] ws = Unit
Matches [] (o ∷ os) ws = ⊥
Matches (t ∷ ts) [] ws = ⊥
Matches (t ∷ ts) (o ∷ os) (w, ws) = Match o w × Matches ts os ws

-- A field has no record, or one of its type that has the size that it announces.
abbrev pub IsField : ℕ → Option Record → Type 0
IsField t none = Unit
IsField t (some r) = (r.tlv_type ≡ t) × Sized r

abbrev pub AreFields : List ℕ → List (Option Record) → Type 0
AreFields [] [] = Unit
AreFields [] (o ∷ os) = ⊥
AreFields (t ∷ ts) [] = ⊥
AreFields (t ∷ ts) (o ∷ os) = IsField t o × AreFields ts os

abbrev pub Rising : List ℕ → Type 0
Rising [] = Unit
Rising (t ∷ ts) = All (λ u. t < u) ts × Rising ts

gather-Sized : (ts : List ℕ) (os : List (Option Record)) → AreFields ts os → All Sized (gather os)
unfolding gather
gather-Sized [] [] h = tt
gather-Sized [] (o ∷ os) h = absurd h
gather-Sized (t ∷ ts) [] h = absurd h
gather-Sized (t ∷ ts) (none ∷ os) h = gather-Sized ts os h.1
gather-Sized (t ∷ ts) (some r ∷ os) h = (h.0.1, gather-Sized ts os h.1)

gather-Matches :
    (ts : List ℕ) (os : List (Option Record)) (es : List (ℕ × Bytes))
    → AreFields ts os
    → Holds (gather os) es
    → (ws : Slots ts) × (es ≡ entries_of ts ws) × Matches ts os ws
unfolding gather
gather-Matches [] [] [] h k = (tt, refl, tt)
gather-Matches [] [] (e ∷ es) h k = absurd k
gather-Matches [] (o ∷ os) es h k = absurd h
gather-Matches (t ∷ ts) [] es h k = absurd h
gather-Matches (t ∷ ts) (none ∷ os) es h k =
    let (ws, same, m) = gather-Matches ts os es h.1 k in ((none, ws), same, (tt, m))
gather-Matches (t ∷ ts) (some r ∷ os) [] h k = absurd k
gather-Matches (t ∷ ts) (some r ∷ os) ((u, v) ∷ es) h k =
    let (ws, same, m) = gather-Matches ts os es h.1 k.2 in
    ((some v, ws), rw (← h.0.0, k.0, same), (k.1, m))

find_value-above :
    (t : ℕ) (ts : List ℕ) (ws : Slots ts)
    → All (λ u. t < u) ts
    → find_value t (entries_of ts ws) ≡ none
unfolding find_value
find_value-above t [] ws h = refl
find_value-above t (u ∷ ts) (none, ws) h = find_value-above t ts ws h.1
find_value-above t (u ∷ ts) (some v, ws) h =
    let other : (t == u) ≡ false = ground arith in rw other (find_value-above t ts ws h.1)

-- In a stream of rising types, the first value of a type is the one of its field.
pub find_value-slot :
    (t : ℕ) (ts : List ℕ) (ws : Slots ts)
    → Rising ts
    → find_value t (entries_of ts ws) ≡ slot t ts ws
unfolding find_value
find_value-slot t [] ws h = refl
find_value-slot t (u ∷ ts) (none, ws) h = elim (Bool-cases (t == u)) [
  | inl same ↦ rw same (find_value-above t ts ws (rw ((==_iff t u).0 same) h.0))
  | inr other ↦ rw other (find_value-slot t ts ws h.1)
]
find_value-slot t (u ∷ ts) (some v, ws) h = elim (Bool-cases (t == u)) [
  | inl same ↦ rw same
  | inr other ↦ rw other (find_value-slot t ts ws h.1)
]

module _ (tlv : Tlv) (laws : Streams tlv) where
  -- Decoding the stream that a message's fields were encoded as gives a value for each of them.
  pub decode_stream-Matches :
      (ts : List ℕ) (os : List (Option Record)) (b : Bytes)
      → AreFields ts os
      → tlv.new_stream (gather os) ≡ ok tt
      → tlv.encode_stream (gather os) ≡ ok b
      → (ws : Slots ts) × (tlv.decode_stream ts b ≡ ok (entries_of ts ws)) × Matches ts os ws
  decode_stream-Matches ts os b fields made written =
      let (es, e, k) = laws.reads_back ts (gather os) b (gather-Sized ts os fields) made written in
      let (ws, same, m) = gather-Matches ts os es fields k in (ws, rw e (ap ok same), m)

-- The entries of a map have no bytes.
abbrev pub AreEmpty : List (ℕ × Bytes) → Type 0
AreEmpty es = (e : ℕ × Bytes) → Mem e es → length e.1 ≤ 0

unknown_records_empty :
    (written : Bytes) (es : List (ℕ × Bytes)) → AreEmpty es → unknown_records written es ≡ []
unfolding unknown_records
unknown_records_empty written [] h = refl
unknown_records_empty written ((t, v) ∷ es) h =
    let here : length v ≤ 0 = h (t, v) (mem-cons.1 (Or.inl refl)) in
    let nothing : (length v == 0) ≡ true = ground arith in
    rw nothing (unknown_records_empty written es (λ e m. h e (mem-cons.1 (Or.inr m))))

pub unknown_records_from_parsed_empty :
    (es : List (ℕ × Bytes)) → AreEmpty es → unknown_records_from_parsed es ≡ []
unfolding unknown_records_from_parsed
unknown_records_from_parsed_empty es h = unknown_records_empty (last_bytes es) es h

AreEmpty-cons :
    (t : ℕ) (v : Bytes) (es : List (ℕ × Bytes))
    → length v ≤ 0
    → AreEmpty es
    → AreEmpty ((t, v) ∷ es)
AreEmpty-cons t v es h k e m =
    Or.elim le_prop (mem-cons.0 m) (λ same. rw same h) (λ later. k e later)

pub tlv_map-AreEmpty :
    (known ts : List ℕ) (ws : Slots ts)
    → All (λ t. member t known ≡ true) ts
    → AreEmpty (tlv_map known (entries_of ts ws))
unfolding tlv_map
tlv_map-AreEmpty known [] ws h = λ e m. absurd (not-mem-nil m)
tlv_map-AreEmpty known (t ∷ ts) (none, ws) h = tlv_map-AreEmpty known ts ws h.1
tlv_map-AreEmpty known (t ∷ ts) (some v, ws) h = rw h.0 (
    AreEmpty-cons t [] (tlv_map known (entries_of ts ws)) (omega arith)
      (tlv_map-AreEmpty known ts ws h.1))
