-- ===== src/Lnwire/Payload.antt =====
-- lnwire/onion_msg_payload.go: onion message payloads; lnwire/route_blinding.go: the data of blinded
-- routes; lnwire/onion_message.go: the message on the wire.
pub mod Final
mod Runs
use boltnd.Prelude.{
  ℕ, zero, suc, ◌+◌, ◌%◌, ◌≤◌, Bool, true, false, not, ◌&&◌, ◌||◌, Option, none, some, List, [],
  ◌∷◌, ◌++◌, map, length, ltb, leb, ◌==◌, Bytes, if◌then◌else◌,
}
use boltnd.Prelude.Errors.{Result, ok, err, wrap, wrapped, not_final_payload, ◌>>=◌, ◌>>◌, guard}
use boltnd.Lnwire.Tlv.{PubKey, Record, Tlv}
use boltnd.Lnwire.ReplyPath.{ReplyPath, path_size, encode_reply_path, decode_reply_path}

abbrev pub final_hop_payload_start : ℕ
final_hop_payload_start = 64

abbrev pub reply_path_type : ℕ
reply_path_type = 2

abbrev pub encrypted_data_tlv_type : ℕ
encrypted_data_tlv_type = 4

abbrev pub invoice_request_namespace_type : ℕ
invoice_request_namespace_type = 64

abbrev pub invoice_namespace_type : ℕ
invoice_namespace_type = 66

pub record FinalHopPayload : Type 0 where
  pub tlv_type : ℕ
  pub value : Bytes

-- A nil slice of EncryptedData is the empty one.
pub record OnionMessagePayload : Type 0 where
  pub reply_path : Option ReplyPath
  pub encrypted_data : Bytes
  pub final_hop_payloads : List FinalHopPayload

-- ValidateFinalPayload, which is also the method Validate of a final hop payload.
unfoldable pub validate_final_payload : ℕ → Result (Unit {0})
validate_final_payload t =
    if ltb t final_hop_payload_start then err (wrapped not_final_payload) else ok tt

-- tlv.MakePrimitiveRecord for a byte slice.
abbrev pub bytes_record : ℕ → Bytes → Record
bytes_record t v = record { tlv_type = t; size = length v; value = ok v }

-- The loop over `o.FinalHopPayloads`.
unfoldable pub final_records : List FinalHopPayload → Result (List Record)
unfolding validate_final_payload
final_records [] = ok []
final_records (p ∷ ps) = do
  validate_final_payload p.tlv_type
  records ← final_records ps
  ok (bytes_record p.tlv_type p.value ∷ records)

-- sort.SliceStable by the tlv type.
unfoldable pub insert_payload : FinalHopPayload → List FinalHopPayload → List FinalHopPayload
insert_payload p [] = p ∷ []
insert_payload p (q ∷ qs) =
    let later = insert_payload p qs in if ltb q.tlv_type p.tlv_type then q ∷ later else p ∷ q ∷ qs

unfoldable pub sort_payloads : List FinalHopPayload → List FinalHopPayload
unfolding insert_payload
sort_payloads [] = []
sort_payloads (p ∷ ps) = insert_payload p (sort_payloads ps)

-- The value that a stream holds for a type.
unfoldable pub find_value : ℕ → List (ℕ × Bytes) → Option Bytes
find_value t [] = none
find_value t ((u, v) ∷ rest) = let found = find_value t rest in if t == u then some v else found

-- The types that DecodeOnionMessagePayload has records for.
abbrev pub known_types : List ℕ
known_types =
    reply_path_type ∷ encrypted_data_tlv_type ∷ invoice_request_namespace_type
    ∷ invoice_namespace_type ∷ []

unfoldable pub is_known : ℕ → Bool
is_known t =
    t == reply_path_type
    || t == encrypted_data_tlv_type
    || t == invoice_request_namespace_type
    || t == invoice_namespace_type

-- The tlvMap: the bytes of a type that is not known, and nothing for one that is.
unfoldable pub map_bytes : ℕ → Bytes → Bytes
unfolding is_known
map_bytes t v = if is_known t then [] else v

-- The loop over the tlvMap.
unfoldable pub unknown_payloads : List (ℕ × Bytes) → List FinalHopPayload
unfolding map_bytes
unknown_payloads [] = []
unknown_payloads ((t, v) ∷ rest) =
    let payloads = unknown_payloads rest in
    if ltb t final_hop_payload_start || length (map_bytes t v) == 0
    then payloads
    else record { tlv_type = t; value = map_bytes t v } ∷ payloads

-- The payload of a type that has a record of its own, if the stream holds it.
unfoldable pub known_payload : ℕ → List (ℕ × Bytes) → List FinalHopPayload
unfolding find_value
known_payload t entries = elim (find_value t entries) [
  | none ↦ []
  | some v ↦ record { tlv_type = t; value = v } ∷ []
]

-- The final hop payloads of a decoded stream, sorted.
unfoldable pub final_payloads : List (ℕ × Bytes) → List FinalHopPayload
unfolding sort_payloads unknown_payloads known_payload
final_payloads entries = sort_payloads (
    unknown_payloads entries
    ++ (known_payload invoice_namespace_type entries
        ++ known_payload invoice_request_namespace_type entries))

abbrev pub bytes_or_nil : Option Bytes → Bytes
bytes_or_nil none = []
bytes_or_nil (some v) = v

-- The data in the encrypted blob of a hop.
pub record BlindedRouteData : Type 0 where
  pub next_node_id : Option PubKey
  pub next_blinding_override : Option PubKey

pub record OnionMessage : Type 0 where
  pub blinding_point : PubKey
  pub onion_blob : Bytes

abbrev pub onion_message_type : ℕ
onion_message_type = 513

abbrev pub next_node_type : ℕ
next_node_type = 4

abbrev pub next_blinding_override_type : ℕ
next_blinding_override_type = 8

module _ (tlv : Tlv) where
  -- ReplyPath.record
  abbrev pub reply_path_record : ReplyPath → Record
  reply_path_record p = record {
    tlv_type = reply_path_type;
    size = path_size p;
    value = encode_reply_path tlv p;
  }

  unfoldable pub reply_path_records : Option ReplyPath → List Record
  reply_path_records none = []
  reply_path_records (some p) = reply_path_record p ∷ []

  unfoldable pub encrypted_data_records : Bytes → List Record
  encrypted_data_records v =
      if length v == 0 then [] else bytes_record encrypted_data_tlv_type v ∷ []

  unfoldable pub encode_onion_message_payload : OnionMessagePayload → Result Bytes
  unfolding reply_path_records encrypted_data_records final_records
  encode_onion_message_payload o = do
    finals ← final_records o.final_hop_payloads
    let records =
        tlv.sort_records
          (reply_path_records o.reply_path ++ (encrypted_data_records o.encrypted_data ++ finals))
    wrap (tlv.new_stream records)
    wrap (tlv.encode_stream records)

  -- The decoder of the reply path's record, by what it leaves in the stream's reader.
  abbrev pub after_reply_path : ℕ → Bytes → Result Bytes
  after_reply_path size input = do (p, rest) ← decode_reply_path tlv size input; ok rest

  -- What that decoder puts into its record, if the stream calls it.
  unfoldable pub decode_path_value : Option (ℕ × Bytes) → Result (Option ReplyPath)
  decode_path_value none = ok none
  decode_path_value (some (size, input)) = do
    (p, rest) ← wrap (decode_reply_path tlv size input)
    ok (some p)

  unfoldable pub decode_onion_message_payload : Bytes → Result OnionMessagePayload
  unfolding decode_path_value final_payloads find_value
  decode_onion_message_payload input = do
    (called, entries) ←
        wrap (tlv.decode_stream_with known_types reply_path_type after_reply_path input)
    path ← decode_path_value called
    ok (record {
      reply_path = path;
      encrypted_data = bytes_or_nil (find_value encrypted_data_tlv_type entries);
      final_hop_payloads = final_payloads entries;
    })

  unfoldable pub key_records : ℕ → Option PubKey → List Record
  key_records t none = []
  key_records t (some k) = record { tlv_type = t; size = 33; value = tlv.e_pub_key k } ∷ []

  unfoldable pub encode_blinded_route_data : BlindedRouteData → Result Bytes
  unfolding key_records
  encode_blinded_route_data d = do
    let records =
        key_records next_node_type d.next_node_id
        ++ key_records next_blinding_override_type d.next_blinding_override
    tlv.new_stream records
    tlv.encode_stream records

  unfoldable pub decode_key : Option Bytes → Result (Option PubKey)
  decode_key none = ok none
  decode_key (some v) = do (k, rest) ← tlv.d_pub_key v; ok (some k)

  unfoldable pub decode_blinded_route_data : Bytes → Result BlindedRouteData
  unfolding decode_key find_value
  decode_blinded_route_data input = do
    entries ← tlv.decode_stream (next_node_type ∷ next_blinding_override_type ∷ []) input
    next ← decode_key (find_value next_node_type entries)
    override ← decode_key (find_value next_blinding_override_type entries)
    ok (record { next_node_id = next; next_blinding_override = override })

  -- The writers and readers of lnd's lnwire have the formats of the tlv package: a compressed key, a
  -- big-endian uint16, plain bytes.
  unfoldable pub encode_onion_message : OnionMessage → Result Bytes
  encode_onion_message o = do
    blinding ← wrap (tlv.e_pub_key o.blinding_point)
    len ← wrap (tlv.e_uint16 (length o.onion_blob % 65536))
    blob ← wrap (tlv.e_var_bytes o.onion_blob)
    ok (blinding ++ (len ++ blob))

  unfoldable pub decode_onion_message : Bytes → Result OnionMessage
  decode_onion_message input = do
    (blinding, after_blinding) ← wrap (tlv.d_pub_key input)
    (len, after_len) ← wrap (tlv.d_uint16 after_blinding)
    (blob, rest) ← wrap (tlv.d_var_bytes len after_len)
    ok (record { blinding_point = blinding; onion_blob = blob })
