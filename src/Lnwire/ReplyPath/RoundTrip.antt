-- ===== src/Lnwire/ReplyPath/RoundTrip.antt =====
-- A reply path is read back from what `encodeReplyPath` writes, and takes the size that is announced.
use mathlib.Core.List.{append_assoc}
use boltnd.Prelude.{
  ℕ, ◌%◌, ◌<◌, ◌≡◌, not, List, [], ◌∷◌, ◌++◌, length, length-append, All, arith, ◌==◌, Bytes, Bool,
  true, lt→ltb,
}
use boltnd.Prelude.Errors.{ok, err, wrap, no_hops, wrap-eq-ok, ok-injective, >>=-eq-ok, guard}
use boltnd.Lnwire.Tlv.{Tlv, ReadsBack, HasSizes}
use boltnd.Lnwire.ReplyPath.{
  BlindedHop, ReplyPath, hop_size, hops_size, path_size, encode_blinded_hop, encode_hops,
  encode_reply_path, decode_blinded_hop, decode_hops, decode_reply_path,
}

-- The length of the data fits the uint16 that announces it.
abbrev pub FitsHop : BlindedHop → Type 0
FitsHop hop = length hop.encrypted_data < 65536

guard_passed : (b : Bool) {u : Unit {0}} → guard b no_hops ≡ ok u → b ≡ true
guard_passed b e = ground arith

module _ (tlv : Tlv) where
  -- What an encoded hop, and an encoded path, consist of.
  encode_blinded_hop-parts :
      (hop : BlindedHop) (b : Bytes)
      → encode_blinded_hop tlv hop ≡ ok b
      → (id len contents : Bytes) × (tlv.e_pub_key hop.blinded_node_id ≡ ok id)
        × (tlv.e_uint16 (length hop.encrypted_data % 65536) ≡ ok len)
        × (tlv.e_var_bytes hop.encrypted_data ≡ ok contents)
        × (id ++ (len ++ contents) ≡ b)
  unfolding encode_blinded_hop
  encode_blinded_hop-parts hop b h =
      let (id, e₁, h₁) = >>=-eq-ok (wrap (tlv.e_pub_key hop.blinded_node_id)) _ h in
      let (len, e₂, h₂) =
        >>=-eq-ok (wrap (tlv.e_uint16 (length hop.encrypted_data % 65536))) _ h₁ in
      let (contents, e₃, h₃) = >>=-eq-ok (wrap (tlv.e_var_bytes hop.encrypted_data)) _ h₂ in
      (id, len, contents, wrap-eq-ok _ e₁, wrap-eq-ok _ e₂, wrap-eq-ok _ e₃, ok-injective h₃)

  encode_reply_path-parts :
      (p : ReplyPath) (b : Bytes)
      → encode_reply_path tlv p ≡ ok b
      → (first blinding count hops : Bytes) × (tlv.e_pub_key p.first_node_id ≡ ok first)
        × (tlv.e_pub_key p.blinding_point ≡ ok blinding)
        × (not (length p.hops % 256 == 0) ≡ true)
        × (tlv.e_uint8 (length p.hops % 256) ≡ ok count)
        × (encode_hops tlv p.hops ≡ ok hops)
        × (first ++ (blinding ++ (count ++ hops)) ≡ b)
  unfolding encode_reply_path
  encode_reply_path-parts p b h =
      let (first, e₁, h₁) = >>=-eq-ok (wrap (tlv.e_pub_key p.first_node_id)) _ h in
      let (blinding, e₂, h₂) = >>=-eq-ok (wrap (tlv.e_pub_key p.blinding_point)) _ h₁ in
      let (u, e₃, h₃) = >>=-eq-ok (guard (not (length p.hops % 256 == 0)) no_hops) _ h₂ in
      let (count, e₄, h₄) = >>=-eq-ok (wrap (tlv.e_uint8 (length p.hops % 256))) _ h₃ in
      let (hops, e₅, h₅) = >>=-eq-ok (encode_hops tlv p.hops) _ h₄ in
      (
        first,
        blinding,
        count,
        hops,
        wrap-eq-ok _ e₁,
        wrap-eq-ok _ e₂,
        guard_passed _ e₃,
        wrap-eq-ok _ e₄,
        e₅,
        ok-injective h₅,
      )

  module _ (reads : ReadsBack tlv) where
    decode-encode_blinded_hop :
        (hop : BlindedHop) (b rest : Bytes)
        → FitsHop hop
        → encode_blinded_hop tlv hop ≡ ok b
        → decode_blinded_hop tlv (b ++ rest) ≡ ok (hop, rest)
    unfolding decode_blinded_hop
    decode-encode_blinded_hop hop b rest fits h =
        let (id, len, contents, e₁, e₂, e₃, made) = encode_blinded_hop-parts hop b h in
        let short : length hop.encrypted_data % 65536 ≡ length hop.encrypted_data = omega arith in
        rw (← made, append_assoc id (len ++ contents) rest, append_assoc len contents rest)
          (rw (reads.pub_key hop.blinded_node_id id (len ++ (contents ++ rest)) e₁) (
            rw
              (reads.uint16 (length hop.encrypted_data) len (contents ++ rest) fits
                (rw short at e₂))
              (rw (reads.var_bytes hop.encrypted_data contents rest e₃))))

    decode-encode_hops :
        (hops : List BlindedHop) (b rest : Bytes)
        → All FitsHop hops
        → encode_hops tlv hops ≡ ok b
        → decode_hops tlv (length hops) (b ++ rest) ≡ ok (hops, rest)
    unfolding decode_hops encode_hops
    decode-encode_hops [] b rest fits h = rw (← ok-injective h)
    decode-encode_hops (hop ∷ hops) b rest fits h =
        let (first, e₁, h₁) = >>=-eq-ok (wrap (encode_blinded_hop tlv hop)) _ h in
        let (others, e₂, h₂) = >>=-eq-ok (encode_hops tlv hops) _ h₁ in
        rw (← ok-injective h₂, append_assoc first others rest)
          (rw (decode-encode_blinded_hop hop first (others ++ rest) fits.0 (wrap-eq-ok _ e₁))
            (rw (decode-encode_hops hops others rest fits.1 e₂)))

    -- Where the decoders read what the encoders wrote, a reply path of at most 255 hops, none with
    -- more data than a uint16 counts, that is encoded is read back from its encoding, whatever
    -- follows it, if the record's length is given as more than 35.
    pub decode-encode_reply_path :
        (p : ReplyPath) (size : ℕ) (b rest : Bytes)
        → length p.hops < 256
        → All FitsHop p.hops
        → 35 < size
        → encode_reply_path tlv p ≡ ok b
        → decode_reply_path tlv size (b ++ rest) ≡ ok (p, rest)
    unfolding decode_reply_path
    decode-encode_reply_path p size b rest few fits long h =
        let (first, blinding, count, hops, e₁, e₂, some_hops, e₃, e₄, made) =
          encode_reply_path-parts p b h in
        let short : length p.hops % 256 ≡ length p.hops = omega arith in
        rw
          (
            ← made,
            append_assoc first (blinding ++ (count ++ hops)) rest,
            append_assoc blinding (count ++ hops) rest,
            append_assoc count hops rest,
          )
          (rw
            (
              lt→ltb 35 size long,
              reads.pub_key p.first_node_id first (blinding ++ (count ++ (hops ++ rest))) e₁,
            )
            (rw (reads.pub_key p.blinding_point blinding (count ++ (hops ++ rest)) e₂) (
              rw
                (
                  reads.uint8 (length p.hops) count (hops ++ rest) few (rw short at e₃),
                  rw short at some_hops,
                )
                (rw (decode-encode_hops p.hops hops rest fits e₄)))))

  module _ (sizes : HasSizes tlv) where
    length-encode_blinded_hop :
        (hop : BlindedHop) (b : Bytes) → encode_blinded_hop tlv hop ≡ ok b → length b ≡ hop_size hop
    unfolding hop_size
    length-encode_blinded_hop hop b h =
        let (id, len, contents, e₁, e₂, e₃, made) = encode_blinded_hop-parts hop b h in
        rw (← made, length-append id (len ++ contents), length-append len contents)
          (omega
            (arith, sizes.pub_key _ id e₁, sizes.uint16 _ len e₂, sizes.var_bytes _ contents e₃))

    length-encode_hops :
        (hops : List BlindedHop) (b : Bytes)
        → encode_hops tlv hops ≡ ok b
        → length b ≡ hops_size hops
    unfolding encode_hops hops_size
    length-encode_hops [] b h = rw (← ok-injective h)
    length-encode_hops (hop ∷ hops) b h =
        let (first, e₁, h₁) = >>=-eq-ok (wrap (encode_blinded_hop tlv hop)) _ h in
        let (others, e₂, h₂) = >>=-eq-ok (encode_hops tlv hops) _ h₁ in
        rw (← ok-injective h₂, length-append first others)
          (omega (
            arith,
            length-encode_blinded_hop hop first (wrap-eq-ok _ e₁),
            length-encode_hops hops others e₂,
          ))

    -- Where keys and integers are encoded in their fixed sizes, an encoded reply path has the
    -- length that its record announces.
    pub length-encode_reply_path :
        (p : ReplyPath) (b : Bytes) → encode_reply_path tlv p ≡ ok b → length b ≡ path_size p
    unfolding path_size
    length-encode_reply_path p b h =
        let (first, blinding, count, hops, e₁, e₂, some_hops, e₃, e₄, made) =
          encode_reply_path-parts p b h in
        rw
          (
            ← made,
            length-append first (blinding ++ (count ++ hops)),
            length-append blinding (count ++ hops),
            length-append count hops,
          )
          (omega (
            arith,
            sizes.pub_key _ first e₁,
            sizes.pub_key _ blinding e₂,
            sizes.uint8 _ count e₃,
            length-encode_hops p.hops hops e₄,
          ))

  -- Where the number of hops is a multiple of 256, not only 0, encoding never succeeds: if the two
  -- keys are encoded, the error is that there are no hops.
  pub encode_reply_path-wrapped_count :
      (p : ReplyPath) (first blinding : Bytes)
      → length p.hops % 256 ≡ 0
      → tlv.e_pub_key p.first_node_id ≡ ok first
      → tlv.e_pub_key p.blinding_point ≡ ok blinding
      → encode_reply_path tlv p ≡ err no_hops
  unfolding encode_reply_path
  encode_reply_path-wrapped_count p first blinding h e₁ e₂ = rw e₁ (rw e₂ (rw h))
