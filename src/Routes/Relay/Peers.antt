-- ===== src/Routes/Relay/Peers.antt =====
-- Which peers are found to relay, and which of them is chosen.
use mathlib.Core.Path.{subst}
use mathlib.Core.List.{Mem, mem-cons}
use mathlib.Core.Logic.{∥∥₁_prop}
use mathlib.Core.Logic.Or
use native.Mathlib.Nat.{le_trans}
use boltnd.Prelude.{
  ℕ, ◌≤◌, ◌≡◌, inl, inr, refl, true, not, Option, none, some, List, [], ◌∷◌, length, ltb, ◌==◌,
  Bytes, All, if◌then◌else◌, arith, Bool-cases,
}
use boltnd.Prelude.Errors.{
  Result, ok, err, panic, stuck, wrap, status, not_found, no_channels, >>=-eq-ok, ok-injective,
  guard,
}
use boltnd.Routes.Relay.{
  NodeInfo, Lnd, check_features, relay_check, relaying_peer, cons_some, relaying_peers,
  get_relaying_peers, most_peers,
}

module _ (lnd : Lnd) where
  check_features-All :
      (has fs : List ℕ)
      → check_features lnd has fs ≡ ok tt
      → All (λ f. lnd.is_required f ≡ true → lnd.is_set has f ≡ true) fs
  unfolding check_features
  check_features-All has [] h = tt
  check_features-All has (f ∷ fs) h = (λ r. ground arith, check_features-All has fs (ground arith))

  -- What a node needs to relay: a channel, an announcement, and each of the features that is required.
  pub record CanRelay (features : List ℕ) (info : NodeInfo) : Type 0 where
    pub some_channel : 1 ≤ info.channels
    pub announced : info.has_node ≡ true
    pub required : All (λ f. lnd.is_required f ≡ true → lnd.is_set info.features f ≡ true) features

  relay_check-CanRelay :
      (features : List ℕ) (info : NodeInfo)
      → relay_check lnd features info ≡ ok tt
      → CanRelay features info
  unfolding relay_check
  relay_check-CanRelay features info h = record {
    some_channel = ground arith;
    announced = ground arith;
    required = check_features-All info.features features (ground arith);
  }

  relaying_peer-CanRelay :
      (features : List ℕ) (r : Result NodeInfo) (info : NodeInfo)
      → relaying_peer lnd (relay_check lnd features) r ≡ ok (some info)
      → CanRelay features info
  unfolding relaying_peer
  relaying_peer-CanRelay features (ok i) info h = go (relay_check lnd features i) refl h
    where
      go :
          (c : Result (Unit {0}))
          → relay_check lnd features i ≡ c
          → ◌≡◌ {A = Result (Option NodeInfo)}
              (elim c [ ok u ↦ ok (some i) | err e ↦ ok none | panic ↦ panic | stuck ↦ stuck ])
              (ok (some info))
          → CanRelay features info
      go (ok u) e k =
          let same : i ≡ info = cc in
          subst (CanRelay features) same (relay_check-CanRelay features i e)
      go (err x) e k = absurd (cc)
      go panic e k = absurd (cc)
      go stuck e k = absurd (cc)
  relaying_peer-CanRelay features (err (status not_found)) info h = absurd (cc)
  relaying_peer-CanRelay features (err e) info h = absurd (cc)
  relaying_peer-CanRelay features panic info h = absurd (cc)
  relaying_peer-CanRelay features stuck info h = absurd (cc)

  relaying_peers-CanRelay :
      (features : List ℕ) (channels : List Bytes) (peers : List NodeInfo)
      → relaying_peers lnd (relay_check lnd features) channels ≡ ok peers
      → All (CanRelay features) peers
  unfolding relaying_peers
  relaying_peers-CanRelay features [] peers h = subst (All (CanRelay features)) (ok-injective h) tt
  relaying_peers-CanRelay features (c ∷ channels) peers h =
      let (peer, e, h₁) =
        >>=-eq-ok (relaying_peer lnd (relay_check lnd features) (lnd.get_node_info c)) _ h in
      let (others, e₁, h₂) =
        >>=-eq-ok (relaying_peers lnd (relay_check lnd features) channels) _ h₁ in
      subst (All (CanRelay features)) (ok-injective h₂)
        (cons peer others e (relaying_peers-CanRelay features channels others e₁))
    where
      cons :
          (peer : Option NodeInfo) (others : List NodeInfo)
          → relaying_peer lnd (relay_check lnd features) (lnd.get_node_info c) ≡ ok peer
          → All (CanRelay features) others
          → All (CanRelay features) (cons_some lnd peer others)
      cons none others e k = k
      cons (some info) others e k =
          (relaying_peer-CanRelay features (lnd.get_node_info c) info e, k)

  -- The peers that are found have a channel and an announcement, and set every required feature.
  pub get_relaying_peers-CanRelay :
      (features : List ℕ) (peers : List NodeInfo)
      → get_relaying_peers lnd (relay_check lnd features) ≡ ok peers
      → All (CanRelay features) peers
  unfolding get_relaying_peers
  get_relaying_peers-CanRelay features peers h =
      let (channels, e, h₁) = >>=-eq-ok (wrap lnd.list_channels) _ h in
      let (u, e₁, h₂) = >>=-eq-ok (guard (not (length channels == 0)) no_channels) _ h₁ in
      relaying_peers-CanRelay features channels peers h₂

  -- The peer that `build_blinded_route` chooses is one of those that it is given, and none of them has
  -- more channels.
  pub most_peers-max :
      (most : NodeInfo) (peers : List NodeInfo)
      → Mem (most_peers lnd most peers) (most ∷ peers)
        × All (λ p. p.channels ≤ (most_peers lnd most peers).channels) (most ∷ peers)
  unfolding most_peers
  most_peers-max most [] = (mem-cons.1 (Or.inl refl), (omega arith, tt))
  most_peers-max most (peer ∷ peers) =
      let (m, (le, others)) = most_peers-max choice peers in
      (
        Or.elim ∥∥₁_prop (mem-cons.0 m) chosen (λ k. mem-cons.1 (Or.inr (mem-cons.1 (Or.inr k)))),
        (le_trans most_le le, (le_trans peer_le le, others)),
      )
    where
      choice : NodeInfo
      choice = if ltb most.channels peer.channels then peer else most

      most_le : most.channels ≤ choice.channels
      most_le = ground arith

      peer_le : peer.channels ≤ choice.channels
      peer_le = ground arith

      chosen : {x : NodeInfo} → x ≡ choice → Mem x (most ∷ peer ∷ peers)
      chosen e = elim (Bool-cases (ltb most.channels peer.channels)) [
        | inl more ↦ mem-cons.1 (Or.inr (mem-cons.1 (Or.inl (rw more at e))))
        | inr less ↦ mem-cons.1 (Or.inl (rw less at e))
      ]
