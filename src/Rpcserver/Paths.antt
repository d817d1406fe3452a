-- ===== src/Rpcserver/Paths.antt =====
-- rpcserver/common.go: the paths of requests and answers.
use boltnd.Prelude.{◌≡◌, refl, Option, none, some, List, [], ◌∷◌, length, Bytes, All, arith}
use boltnd.Prelude.Errors.{Result, ok, ◌>>=◌}
use boltnd.Lnwire.Tlv.{PubKey}
use boltnd.Lnwire.ReplyPath.{BlindedHop, ReplyPath}
use boltnd.Routes.{BlindedPath}
use boltnd.Rpcserver.{
  compose_hops, compose_reply_path, compose_route_hops, compose_blinded_route, parse_hops,
  parse_reply_path,
}

-- The hops of a route, each key with its data.
abbrev pub pair_hops : List PubKey → List Bytes → List BlindedHop
pair_hops [] cs = []
pair_hops (k ∷ ks) [] = []
pair_hops (k ∷ ks) (c ∷ cs) = record { blinded_node_id = k; encrypted_data = c } ∷ pair_hops ks cs

abbrev pub path_of : BlindedPath → ReplyPath
path_of r = record {
  first_node_id = r.introduction_point;
  blinding_point = r.blinding_point;
  hops = pair_hops r.blinded_hops r.encrypted_data;
}

module _ (parse : Bytes → Result PubKey) where
  -- A key that is read from its serialization.
  abbrev pub Parses : PubKey → Type 0
  Parses k = parse k ≡ ok k

  abbrev pub PathParses : Option ReplyPath → Type 0
  PathParses none = Unit
  PathParses (some p) =
      Parses p.first_node_id × Parses p.blinding_point × All (λ h. Parses h.blinded_node_id) p.hops

  parse-compose_hops :
      (hs : List BlindedHop)
      → All (λ h. Parses h.blinded_node_id) hs
      → parse_hops parse (compose_hops hs) ≡ ok hs
  unfolding parse_hops compose_hops
  parse-compose_hops [] h = refl
  parse-compose_hops (hop ∷ hops) h = rw (h.0, parse-compose_hops hops h.1)

  -- A reply path whose keys are read from their serializations is what its rpc message is parsed to.
  pub parse-compose_reply_path :
      (p : Option ReplyPath) → PathParses p → parse_reply_path parse (compose_reply_path p) ≡ ok p
  unfolding parse_reply_path compose_reply_path
  parse-compose_reply_path none h = refl
  parse-compose_reply_path (some p) (intro, blinding, hops) =
      rw (intro, blinding, parse-compose_hops p.hops hops)

  compose_route_hops-pair_hops :
      (ks : List PubKey) (cs : List Bytes)
      → length ks ≡ length cs
      → compose_route_hops ks cs ≡ ok (compose_hops (pair_hops ks cs))
  unfolding compose_route_hops compose_hops
  compose_route_hops-pair_hops [] cs h = refl
  compose_route_hops-pair_hops (k ∷ ks) [] h = absurd (omega arith)
  compose_route_hops-pair_hops (k ∷ ks) (c ∷ cs) h =
      rw (compose_route_hops-pair_hops ks cs (omega arith))

  -- A blinded route with a datum for each hop, whose keys are read from their serializations, comes back from
  -- its rpc message as the reply path with its nodes, its blinding point, and each hop with its datum.
  pub parse-compose_blinded_route :
      (r : BlindedPath)
      → length r.blinded_hops ≡ length r.encrypted_data
      → PathParses (some (path_of r))
      → (compose_blinded_route r >>= λ rpc. parse_reply_path parse (some rpc))
        ≡ ok (some (path_of r))
  unfolding compose_blinded_route compose_reply_path
  parse-compose_blinded_route r paired parses =
      rw (compose_route_hops-pair_hops r.blinded_hops r.encrypted_data paired)
        (parse-compose_reply_path (some (path_of r)) parses)
