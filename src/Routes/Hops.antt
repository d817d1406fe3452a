-- ===== src/Routes/Hops.antt =====
-- What the onion hops of a route carry: `blindedToSphinx`.
use mathlib.Core.Path.{subst}
use mathlib.Core.List.{append_assoc, append-nil}
use boltnd.Prelude.{
  ◌≡◌, refl, sym, ap, ◌∙◌, List, [], ◌∷◌, ◌++◌, length, arith, ◌==◌, Bytes, Option, if◌then◌else◌,
}
use boltnd.Prelude.Errors.{
  Result, ok, panic, wrap, replace, text, wrap-eq-ok, replace-eq-ok, ok-injective, >>=-eq-ok, ◌>>=◌,
}
use boltnd.Lnwire.Tlv.{PubKey, Tlv}
use boltnd.Lnwire.ReplyPath.{BlindedHop, ReplyPath}
use boltnd.Lnwire.Payload.{FinalHopPayload, OnionMessagePayload, encode_onion_message_payload}
use boltnd.Routes.{
  BlindedPath, OnionHop, Sphinx, create_sphinx_hop, put_hop, plain_payload, full_payload,
  add_our_hops, add_extra_hops, blinded_to_sphinx,
}

module _ (tlv : Tlv) (sphinx : Sphinx) where
  -- The onion hops carry the encrypted data to their nodes, in order, each as a plain payload but the
  -- last, whose payload `last` makes.
  abbrev pub Carries :
      (Bytes → OnionMessagePayload) → List (PubKey × Bytes) → List OnionHop → Type 0
  Carries last [] [] = Unit
  Carries last ((k, d) ∷ []) (h ∷ []) =
      (h.node_pub ≡ k) × (encode_onion_message_payload tlv (last d) ≡ ok h.payload)
  Carries last ((k, d) ∷ e ∷ es) (h ∷ i ∷ hs) =
      (h.node_pub ≡ k)
      × (encode_onion_message_payload tlv (plain_payload tlv sphinx d) ≡ ok h.payload)
      × Carries last (e ∷ es) (i ∷ hs)
  Carries last _ _ = ⊥

  pub create_sphinx_hop-parts :
      (node : PubKey) (payload : OnionMessagePayload) (hop : OnionHop)
      → wrap (create_sphinx_hop tlv sphinx node payload) ≡ ok hop
      → (hop.node_pub ≡ node) × (encode_onion_message_payload tlv payload ≡ ok hop.payload)
  unfolding create_sphinx_hop
  create_sphinx_hop-parts node payload hop h =
      let (bytes, e, h₁) =
        >>=-eq-ok (replace text (encode_onion_message_payload tlv payload)) _ (wrap-eq-ok _ h) in
      subst
        (λ (o : OnionHop).
          (o.node_pub ≡ node) × (encode_onion_message_payload tlv payload ≡ ok o.payload))
        (ok-injective h₁) (refl, replace-eq-ok text _ e)

  pub put_hop-eq :
      (path : List OnionHop) (hop : OnionHop) (out : List OnionHop)
      → put_hop tlv sphinx path hop ≡ ok out
      → path ++ hop ∷ [] ≡ out
  unfolding put_hop
  put_hop-eq path hop out h = ground arith

  -- The entries of the extra hops.
  abbrev pub extra_entries : List BlindedHop → List (PubKey × Bytes)
  extra_entries [] = []
  extra_entries (h ∷ hs) = (h.blinded_node_id, h.encrypted_data) ∷ extra_entries hs

  abbrev Added :
      (Bytes → OnionMessagePayload) → List (PubKey × Bytes) → List OnionHop → List OnionHop → Type 0
  Added last entries path out =
      (new : List OnionHop) × (path ++ new ≡ out) × Carries last entries new

  Added-one :
      (last : Bytes → OnionMessagePayload) (k : PubKey) (d : Bytes) (path out : List OnionHop)
      → (wrap (create_sphinx_hop tlv sphinx k (last d)) >>= put_hop tlv sphinx path) ≡ ok out
      → Added last ((k, d) ∷ []) path out
  Added-one last k d path out h =
      let (hop, e, h₁) = >>=-eq-ok (wrap (create_sphinx_hop tlv sphinx k (last d))) _ h in
      (hop ∷ [], put_hop-eq path hop out h₁, create_sphinx_hop-parts k (last d) hop e)

  Added-cons :
      (last : Bytes → OnionMessagePayload) (k : PubKey) (d : Bytes) (e : PubKey × Bytes)
      (es : List (PubKey × Bytes)) (path path' out : List OnionHop) (hop : OnionHop)
      → wrap (create_sphinx_hop tlv sphinx k (plain_payload tlv sphinx d)) ≡ ok hop
      → put_hop tlv sphinx path hop ≡ ok path'
      → Added last (e ∷ es) path' out
      → Added last ((k, d) ∷ e ∷ es) path out
  Added-cons last k d e es path path' out hop made put ([], q, c) = absurd (none_left e es c)
    where
      none_left : (e : PubKey × Bytes) (es : List (PubKey × Bytes)) → Carries last (e ∷ es) [] → ⊥
      none_left e [] c = c
      none_left e (f ∷ es) c = c
  Added-cons last k d e es path path' out hop made put (i ∷ new, q, c) = (
    hop ∷ i ∷ new,
    sym (append_assoc path (hop ∷ []) (i ∷ new))
        ∙ ap (λ p. p ++ i ∷ new) (put_hop-eq path hop path' put)
        ∙ q,
    ((create_sphinx_hop-parts k _ hop made).0, (create_sphinx_hop-parts k _ hop made).1, c),
  )

  add_extra_hops-Added :
      (last : Bytes → OnionMessagePayload) (extra : List BlindedHop) (path out : List OnionHop)
      → add_extra_hops tlv sphinx last extra path ≡ ok out
      → Added last (extra_entries extra) path out
  unfolding add_extra_hops
  add_extra_hops-Added last [] path out h = ([], append-nil path ∙ ok-injective h, tt)
  add_extra_hops-Added last (x ∷ []) path out h =
      Added-one last x.blinded_node_id x.encrypted_data path out h
  add_extra_hops-Added last (x ∷ y ∷ rest) path out h =
      let (hop, e, h₁) =
        >>=-eq-ok
          (wrap (
            create_sphinx_hop tlv sphinx x.blinded_node_id
              (plain_payload tlv sphinx x.encrypted_data)))
          _ h in
      let (path', e₁, h₂) = >>=-eq-ok (put_hop tlv sphinx path hop) _ h₁ in
      Added-cons last x.blinded_node_id x.encrypted_data _ _ path path' out hop e e₁
        (add_extra_hops-Added last (y ∷ rest) path' out h₂)

  -- The entries of our own hops.
  abbrev pub our_entries : List Bytes → List PubKey → List (PubKey × Bytes)
  our_entries [] ks = []
  our_entries (d ∷ ds) [] = []
  our_entries (d ∷ ds) (k ∷ ks) = (k, d) ∷ our_entries ds ks

  add_our_hops-Added :
      (last : Bytes → OnionMessagePayload) (ds : List Bytes) (ks : List PubKey)
      (path out : List OnionHop)
      → add_our_hops tlv sphinx last ds ks path ≡ ok out
      → Added last (our_entries ds ks) path out
  unfolding add_our_hops
  add_our_hops-Added last [] ks path out h = ([], append-nil path ∙ ok-injective h, tt)
  add_our_hops-Added last (d ∷ ds) [] path out h = absurd (cc)
  add_our_hops-Added last (d ∷ []) (k ∷ ks) path out h = Added-one last k d path out h
  add_our_hops-Added last (d ∷ e ∷ ds) (k ∷ []) path out h =
      let (hop, e₀, h₁) =
        >>=-eq-ok (wrap (create_sphinx_hop tlv sphinx k (plain_payload tlv sphinx d))) _ h in
      let (path', e₁, h₂) = >>=-eq-ok (put_hop tlv sphinx path hop) _ h₁ in absurd (panics h₂)
    where
      panics : {o : List OnionHop} → ◌≡◌ {A = Result (List OnionHop)} panic (ok o) → ⊥
      panics p = cc
  add_our_hops-Added last (d ∷ e ∷ ds) (k ∷ l ∷ ks) path out h =
      let (hop, e₀, h₁) =
        >>=-eq-ok (wrap (create_sphinx_hop tlv sphinx k (plain_payload tlv sphinx d))) _ h in
      let (path', e₁, h₂) = >>=-eq-ok (put_hop tlv sphinx path hop) _ h₁ in
      Added-cons last k d _ _ path path' out hop e₀ e₁
        (add_our_hops-Added last (e ∷ ds) (l ∷ ks) path' out h₂)

  -- Hops that are all plain, and after them hops that end as `last` says.
  Carries-append :
      (last : Bytes → OnionMessagePayload) (xs : List (PubKey × Bytes)) (y : PubKey × Bytes)
      (ys : List (PubKey × Bytes)) (hs is : List OnionHop)
      → Carries (plain_payload tlv sphinx) xs hs
      → Carries last (y ∷ ys) is
      → Carries last (xs ++ y ∷ ys) (hs ++ is)
  Carries-append last [] y ys [] is c d = d
  Carries-append last [] y ys (h ∷ hs) is c d = absurd c
  Carries-append last (x ∷ []) y ys [] is c d = absurd c
  Carries-append last (x ∷ []) y ys (h ∷ []) [] c d = absurd (nothing y ys d)
    where
      nothing : (y : PubKey × Bytes) (ys : List (PubKey × Bytes)) → Carries last (y ∷ ys) [] → ⊥
      nothing y [] c = c
      nothing y (z ∷ ys) c = c
  Carries-append last (x ∷ []) y ys (h ∷ []) (i ∷ is) c d = (c.0, c.1, d)
  Carries-append last (x ∷ []) y ys (h ∷ i ∷ hs) is c d = absurd c
  Carries-append last (x ∷ z ∷ xs) y ys [] is c d = absurd c
  Carries-append last (x ∷ z ∷ xs) y ys (h ∷ []) is c d = absurd c
  Carries-append last (x ∷ z ∷ xs) y ys (h ∷ i ∷ hs) is c d =
      (c.0, c.1, Carries-append last (z ∷ xs) y ys (i ∷ hs) is c.2 d)

  -- A sphinx path that is made has our hops and then the extra ones, in order; the last of them all
  -- has the reply path and the final payloads, and no other hop has any.
  pub blinded_to_sphinx-Carries :
      (route : BlindedPath) (extra : List BlindedHop) (reply : Option ReplyPath)
      (finals : List FinalHopPayload) (out : List OnionHop)
      → blinded_to_sphinx tlv sphinx route extra reply finals ≡ ok out
      → Carries
          (full_payload tlv sphinx reply finals)
          (our_entries route.encrypted_data route.blinded_hops ++ extra_entries extra)
          out
  unfolding blinded_to_sphinx
  blinded_to_sphinx-Carries route [] reply finals out h =
      let (path, e, h₁) =
        >>=-eq-ok
          (add_our_hops tlv sphinx (full_payload tlv sphinx reply finals) route.encrypted_data
            route.blinded_hops [])
          _ h in
      let (new, q, c) =
        add_our_hops-Added (full_payload tlv sphinx reply finals) route.encrypted_data
          route.blinded_hops [] path e in
      rw append-nil (subst (Carries _ _) (q ∙ ok-injective (unfold add_extra_hops in h₁)) c)
  blinded_to_sphinx-Carries route (x ∷ extra) reply finals out h =
      let (path, e, h₁) =
        >>=-eq-ok
          (add_our_hops tlv sphinx
            (if length (x ∷ extra) == 0
              then full_payload tlv sphinx reply finals
              else plain_payload tlv sphinx)
            route.encrypted_data route.blinded_hops [])
          _ h in
      let (ours, q, c) =
        add_our_hops-Added (plain_payload tlv sphinx) route.encrypted_data route.blinded_hops []
          path (rw not_empty at e) in
      let (new, r, d) =
        add_extra_hops-Added (full_payload tlv sphinx reply finals) (x ∷ extra) path out h₁ in
      subst (Carries _ _) (ap (λ p. p ++ new) q ∙ r) (
        Carries-append (full_payload tlv sphinx reply finals)
          (our_entries route.encrypted_data route.blinded_hops)
          (x.blinded_node_id, x.encrypted_data) (extra_entries extra) ours new c d)
    where
      not_empty :
          (if length (x ∷ extra) == 0
            then full_payload tlv sphinx reply finals
            else plain_payload tlv sphinx)
          ≡ plain_payload tlv sphinx
      not_empty = ground arith
