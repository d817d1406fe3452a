-- ===== src/Routes/Relay.antt =====
-- routes/blinded.go: the peers that can relay onion messages, and the blinded route to our node.
pub mod Peers
use boltnd.Prelude.{
  ℕ, zero, suc, ◌+◌, ◌≤◌, ◌<◌, ◌≡◌, ◌≢◌, ◌⊎◌, inl, inr, refl, sym, Bool, true, false, not, ◌&&◌,
  Option, none, some, List, [], ◌∷◌, ◌++◌, length, ltb, ◌==◌, Bytes, All, if◌then◌else◌, arith,
}
use boltnd.Prelude.Errors.{
  Error, Result, ok, err, panic, stuck, wrap, wrapped, status, not_found, no_channels,
  no_peer_channels, no_node_info, feature_mismatch, no_relaying_peers, >>=-eq-ok, wrap-eq-ok,
  ok-injective, ◌>>=◌, ◌>>◌, guard,
}
use boltnd.Lnwire.Tlv.{PubKey, Tlv}
use boltnd.Lnwire.Payload.{encode_blinded_route_data}
use boltnd.Routes.{PathHop, BlindedPath, PrivKey, Sphinx}

-- lndclient.NodeInfo: the number of its channels, whether it has a Node, its features and its key.
pub record NodeInfo : Type 0 where
  pub channels : ℕ
  pub has_node : Bool
  pub features : List ℕ
  pub pub_key : Bytes

-- What the code asks of lnd, of btcec, and of the feature bits of lnwire.
pub record Lnd : Type 0 where
  -- ListChannels with activeOnly, and GetNodeInfo, by the key
  pub list_channels : Result (List Bytes)
  pub get_node_info : Bytes → Result NodeInfo
  -- FeatureBit.IsRequired, and IsSet of a raw feature vector
  pub is_required : ℕ → Bool
  pub is_set : List ℕ → ℕ → Bool
  pub parse_pub_key : Bytes → Result PubKey
  pub new_private_key : Result PrivKey

module _ (lnd : Lnd) where
  -- The loop over the features of createRelayCheck.
  unfoldable pub check_features : List ℕ → List ℕ → Result (Unit {0})
  check_features node_features [] = ok tt
  check_features node_features (f ∷ fs) =
      let rest = check_features node_features fs in
      if lnd.is_required f && not (lnd.is_set node_features f)
      then err (wrapped feature_mismatch)
      else rest

  -- The closure that createRelayCheck returns.
  unfoldable pub relay_check : List ℕ → NodeInfo → Result (Unit {0})
  unfolding check_features
  relay_check features info = do
    guard (not (info.channels == 0)) no_peer_channels
    guard info.has_node no_node_info
    check_features info.features features

  -- What the loop of getRelayingPeers does with a node that is looked up: `none` skips it.
  unfoldable pub relaying_peer :
      (NodeInfo → Result (Unit {0})) → Result NodeInfo → Result (Option NodeInfo)
  relaying_peer can_relay (ok info) = elim (can_relay info) [
    | ok u ↦ ok (some info)
    | err e ↦ ok none
    | panic ↦ panic
    | stuck ↦ stuck
  ]
  relaying_peer can_relay (err (status not_found)) = ok none
  relaying_peer can_relay (err e) = err (wrapped e)
  relaying_peer can_relay panic = panic
  relaying_peer can_relay stuck = stuck

  abbrev pub cons_some {ℓ} : {A : Type ℓ} → Option A → List A → List A
  cons_some none xs = xs
  cons_some (some x) xs = x ∷ xs

  unfoldable pub relaying_peers :
      (NodeInfo → Result (Unit {0})) → List Bytes → Result (List NodeInfo)
  unfolding relaying_peer
  relaying_peers can_relay [] = ok []
  relaying_peers can_relay (channel ∷ channels) = do
    peer ← relaying_peer can_relay (lnd.get_node_info channel)
    peers ← relaying_peers can_relay channels
    ok (cons_some peer peers)

  unfoldable pub get_relaying_peers : (NodeInfo → Result (Unit {0})) → Result (List NodeInfo)
  unfolding relaying_peers
  get_relaying_peers can_relay = do
    channels ← wrap lnd.list_channels
    guard (not (length channels == 0)) no_channels
    relaying_peers can_relay channels

  -- The loop of buildBlindedRoute over the peers after the first.
  unfoldable pub most_peers : NodeInfo → List NodeInfo → NodeInfo
  most_peers most [] = most
  most_peers most (peer ∷ peers) =
      most_peers (if ltb most.channels peer.channels then peer else most) peers

  unfoldable pub build_blinded_route : Tlv → List NodeInfo → PubKey → Result (List PathHop)
  unfolding most_peers
  build_blinded_route tlv [] our_pubkey = err no_relaying_peers
  build_blinded_route tlv (peer ∷ peers) our_pubkey = do
    intro_node ← wrap (lnd.parse_pub_key (most_peers peer peers).pub_key)
    payload ← wrap (
        encode_blinded_route_data tlv
          (record { next_node_id = some our_pubkey; next_blinding_override = none }))
    ok (
        record { node_pub = intro_node; payload = payload }
        ∷ record { node_pub = our_pubkey; payload = [] }
        ∷ [])

  -- BlindedRouteGenerator.ReplyPath
  unfoldable pub reply_path : Tlv → Sphinx → PubKey → List ℕ → Result BlindedPath
  unfolding get_relaying_peers relay_check build_blinded_route
  reply_path tlv sphinx our_pubkey features = do
    peers ← wrap (get_relaying_peers (relay_check features))
    hops ← wrap (build_blinded_route tlv peers our_pubkey)
    session_key ← wrap lnd.new_private_key
    wrap (sphinx.build_blinded_path session_key hops)
