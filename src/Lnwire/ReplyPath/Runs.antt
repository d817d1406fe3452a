-- ===== src/Lnwire/ReplyPath/Runs.antt =====
-- Runs of the encoding of reply paths.
use boltnd.Prelude.{ℕ, zero, suc, ◌≡◌, refl, List, [], ◌∷◌, ◌++◌, Bytes, arith}
use boltnd.Prelude.Errors.{ok}
use boltnd.Lnwire.ReplyPath.{
  BlindedHop, ReplyPath, encode_reply_path, encode_hops, encode_blinded_hop, decode_reply_path,
}
use boltnd.Lnwire.ReplyPath.RoundTrip.{decode-encode_reply_path}
use boltnd.Lnwire.Sample.{sample, key}
use boltnd.Lnwire.Sample.Laws.{sample-ReadsBack}

abbrev hop : ℕ → BlindedHop
hop n = record { blinded_node_id = key n; encrypted_data = n ∷ n ∷ [] }

abbrev two_hops : ReplyPath
two_hops = record { first_node_id = key 2; blinding_point = key 3; hops = hop 4 ∷ hop 5 ∷ [] }

abbrev two_hops_bytes : Bytes
two_hops_bytes =
    key 2 ++ (key 3 ++ (2 ∷ (key 4 ++ (0 ∷ 2 ∷ 4 ∷ 4 ∷ (key 5 ++ (0 ∷ 2 ∷ 5 ∷ 5 ∷ []))))))

encode_two_hops : encode_reply_path sample two_hops ≡ ok two_hops_bytes
unfolding encode_reply_path encode_hops encode_blinded_hop
encode_two_hops = refl

decode-encode_reply_path_example :
    decode_reply_path sample 400 (two_hops_bytes ++ 9 ∷ []) ≡ ok (two_hops, 9 ∷ [])
decode-encode_reply_path_example =
    decode-encode_reply_path sample sample-ReadsBack two_hops 400 two_hops_bytes (9 ∷ [])
      (omega arith) (omega arith, (omega arith, tt)) (omega arith) encode_two_hops

abbrev many_hops : ℕ → List BlindedHop
many_hops zero = []
many_hops (suc n) = hop 4 ∷ many_hops n

abbrev long_path : ReplyPath
long_path = record { first_node_id = key 2; blinding_point = key 3; hops = many_hops 256 }
