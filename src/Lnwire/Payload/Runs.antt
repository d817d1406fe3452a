-- ===== src/Lnwire/Payload/Runs.antt =====
-- Runs of the encoding of onion messages and their payloads.
use boltnd.Prelude.{◌≡◌, refl, none, [], ◌∷◌, ◌++◌}
use boltnd.Prelude.Errors.{ok}
use boltnd.Lnwire.Payload.{
  OnionMessagePayload, OnionMessage, encode_onion_message_payload, reply_path_records,
  encrypted_data_records, final_records, validate_final_payload, encode_onion_message,
}
use boltnd.Lnwire.Sample.{sample, key}

abbrev payload : OnionMessagePayload
payload = record {
  reply_path = none;
  encrypted_data = 1 ∷ 2 ∷ [];
  final_hop_payloads = record { tlv_type = 101; value = 5 ∷ [] } ∷ [];
}

encode_payload : encode_onion_message_payload sample payload ≡ ok (4 ∷ 2 ∷ 1 ∷ 2 ∷ 101 ∷ 1 ∷ 5 ∷ [])
unfolding encode_onion_message_payload reply_path_records encrypted_data_records final_records
    validate_final_payload
encode_payload = refl

abbrev onion : OnionMessage
onion = record { blinding_point = key 2; onion_blob = 8 ∷ 9 ∷ [] }

encode_onion : encode_onion_message sample onion ≡ ok (key 2 ++ (0 ∷ 2 ∷ 8 ∷ 9 ∷ []))
unfolding encode_onion_message
encode_onion = refl
