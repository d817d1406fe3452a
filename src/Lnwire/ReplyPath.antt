-- ===== src/Lnwire/ReplyPath.antt =====
-- lnwire/onion_msg_payload.go: reply paths and blinded hops, their encoding and decoding.
pub mod RoundTrip
mod Runs
use boltnd.Prelude.{
  ℕ, zero, suc, ◌+◌, ◌%◌, not, List, [], ◌∷◌, ◌++◌, length, ltb, ◌==◌, Bytes, if◌then◌else◌,
}
use boltnd.Prelude.Errors.{Result, ok, err, wrap, no_hops, ◌>>=◌, ◌>>◌, guard}
use boltnd.Lnwire.Tlv.{PubKey, Tlv}

pub record BlindedHop : Type 0 where
  pub blinded_node_id : PubKey
  pub encrypted_data : Bytes

pub record ReplyPath : Type 0 where
  pub first_node_id : PubKey
  pub blinding_point : PubKey
  pub hops : List BlindedHop

-- BlindedHop.size: the key, the length and the data.
unfoldable pub hop_size : BlindedHop → ℕ
hop_size hop = 33 + 2 + length hop.encrypted_data

unfoldable pub hops_size : List BlindedHop → ℕ
unfolding hop_size
hops_size [] = 0
hops_size (hop ∷ hops) = hop_size hop + hops_size hops

-- ReplyPath.size
unfoldable pub path_size : ReplyPath → ℕ
unfolding hops_size
path_size p = 33 + 33 + 1 + hops_size p.hops

module _ (tlv : Tlv) where
  -- The data's length is written as a uint16.
  unfoldable pub encode_blinded_hop : BlindedHop → Result Bytes
  encode_blinded_hop hop = do
    id ← wrap (tlv.e_pub_key hop.blinded_node_id)
    len ← wrap (tlv.e_uint16 (length hop.encrypted_data % 65536))
    contents ← wrap (tlv.e_var_bytes hop.encrypted_data)
    ok (id ++ (len ++ contents))

  unfoldable pub encode_hops : List BlindedHop → Result Bytes
  unfolding encode_blinded_hop
  encode_hops [] = ok []
  encode_hops (hop ∷ hops) = do
    first ← wrap (encode_blinded_hop hop)
    others ← encode_hops hops
    ok (first ++ others)

  -- The number of hops is written as a uint8.
  unfoldable pub encode_reply_path : ReplyPath → Result Bytes
  unfolding encode_hops
  encode_reply_path p = do
    first ← wrap (tlv.e_pub_key p.first_node_id)
    blinding ← wrap (tlv.e_pub_key p.blinding_point)
    guard (not (length p.hops % 256 == 0)) no_hops
    count ← wrap (tlv.e_uint8 (length p.hops % 256))
    hops ← encode_hops p.hops
    ok (first ++ (blinding ++ (count ++ hops)))

  -- The decoders return the input that they leave.
  unfoldable pub decode_blinded_hop : Bytes → Result (BlindedHop × Bytes)
  decode_blinded_hop input = do
    (id, after_id) ← wrap (tlv.d_pub_key input)
    (len, after_len) ← wrap (tlv.d_uint16 after_id)
    (contents, rest) ← wrap (tlv.d_var_bytes len after_len)
    ok (record { blinded_node_id = id; encrypted_data = contents }, rest)

  unfoldable pub decode_hops : ℕ → Bytes → Result (List BlindedHop × Bytes)
  unfolding decode_blinded_hop
  decode_hops zero input = ok ([], input)
  decode_hops (suc n) input = do
    (hop, after_hop) ← wrap (decode_blinded_hop input)
    (hops, rest) ← decode_hops n after_hop
    ok (hop ∷ hops, rest)

  -- `size` is the length of the record.
  unfoldable pub decode_reply_path : ℕ → Bytes → Result (ReplyPath × Bytes)
  unfolding decode_hops
  decode_reply_path size input =
      let read = do
        (first, after_first) ← wrap (tlv.d_pub_key input)
        (blinding, after_blinding) ← wrap (tlv.d_pub_key after_first)
        (count, after_count) ← wrap (tlv.d_uint8 after_blinding)
        guard (not (count == 0)) no_hops
        (hops, rest) ← decode_hops count after_count
        ok (record { first_node_id = first; blinding_point = blinding; hops = hops }, rest)
      in if ltb 35 size then read else err tlv.decoding_error
