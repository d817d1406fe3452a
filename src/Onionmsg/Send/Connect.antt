-- ===== src/Onionmsg/Send/Connect.antt =====
-- The connection before a direct message and where the message goes (onionmsg/messenger.go,
-- lookupAndConnect and SendMessage).
use boltnd.Prelude.{ℕ, zero, suc, true, List, ◌≡◌, refl, ap, ◌∙◌, Bytes, Bool-cases, inl, inr}
use boltnd.Prelude.Errors.{
  Result, ok, err, panic, stuck, text, wrap, replace, ok-injective, wrap-eq-ok, replace-eq-ok,
}
use boltnd.Prelude.Exec.{Exec, pure, continue, continue-eq-ok}
use boltnd.Lnwire.Tlv.{PubKey, Tlv}
use boltnd.Routes.{Sphinx}
use boltnd.Onionmsg.Request.{Node, has_peer}
use boltnd.Onionmsg.Send.{
  find_peer, wait_and_try, attempts, first_address, connect_and_wait, lookup_and_connect,
}

module _ {S : Type 0} (tlv : Tlv) (sphinx : Sphinx) (node : Node S) where
  -- lnd's list of peers, read in some state and leaving the state `t`, has the peer.
  abbrev pub Connected : PubKey → S → Type 0
  Connected peer t =
      (s : S) × (peers : List Bytes) × ((node.list_peers s).0 ≡ ok peers)
      × ((node.list_peers s).1 ≡ t)
      × (has_peer peer peers ≡ true)

  found-Connected :
      (peer : PubKey) (s t : S)
      → (find_peer tlv sphinx node peer s).0 ≡ ok true
      → (find_peer tlv sphinx node peer s).1 ≡ t
      → Connected peer t
  unfolding find_peer
  found-Connected peer s t = listed (node.list_peers s).0 (node.list_peers s).1 refl refl
    where
      listed :
          (r : Result (List Bytes)) (u : S)
          → (node.list_peers s).0 ≡ r
          → (node.list_peers s).1 ≡ u
          → (continue (wrap r) (λ peers. pure (has_peer peer peers)) u).0 ≡ ok true
          → (continue (wrap r) (λ peers. pure (has_peer peer peers)) u).1 ≡ t
          → Connected peer t
      listed (ok peers) u e d h k = (s, peers, e, d ∙ k, ok-injective h)
      listed (err _) u e d h k = cc
      listed panic u e d h k = cc
      listed stuck u e d h k = cc

  -- Any run that a wait lets go on.
  again-Connected :
      (peer : PubKey) (again : Exec S (Unit {0})) (s t : S)
      → ((u : S) → again u ≡ (ok tt, t) → Connected peer t)
      → wait_and_try tlv sphinx node again s ≡ (ok tt, t)
      → Connected peer t
  unfolding wait_and_try
  again-Connected peer again s t ih h =
      let (more, e, k) = continue-eq-ok (node.wait s).0 _ (node.wait s).1 h in
      elim (Bool-cases more) [
        | inl is_so ↦ ih _ (rw is_so at k)
        | inr not_so ↦ absurd (clash (rw not_so at k))
      ]
    where
      clash : {u : S} → ◌≡◌ {A = Result (Unit {0}) × S} (err node.context_error, u) (ok tt, t) → ⊥
      clash h = cc

  attempts-Connected :
      (n : ℕ) (peer : PubKey) (s t : S)
      → attempts tlv sphinx node n peer s ≡ (ok tt, t)
      → Connected peer t
  unfolding attempts
  attempts-Connected zero peer s t h = absurd (cc)
  attempts-Connected (suc n) peer s t h =
      let (found, e, k) =
        continue-eq-ok (replace text (find_peer tlv sphinx node peer s).0) _
          (find_peer tlv sphinx node peer s).1 h in
      elim (Bool-cases found) [
        | inl is_so ↦
            found-Connected peer s t (rw is_so at (replace-eq-ok text _ e))
              (ap (λ p. p.1) (rw is_so at k))
        | inr not_so ↦
            again-Connected peer (attempts tlv sphinx node n peer) _ t
              (λ u. attempts-Connected n peer u t) (rw not_so at k)
      ]

  connect_and_wait-Connected :
      (n : ℕ) (peer : PubKey) (s t : S)
      → connect_and_wait tlv sphinx node n peer s ≡ (ok tt, t)
      → Connected peer t
  unfolding connect_and_wait
  connect_and_wait-Connected n peer s t h =
      let (addresses, _, h₁) =
        continue-eq-ok (wrap (node.addresses peer s).0) _ (node.addresses peer s).1 h in
      let u = (node.addresses peer s).1 in
      let first = first_address tlv sphinx node addresses in
      let (address, _, h₂) = continue-eq-ok (first u).0 _ (first u).1 h₁ in
      let connected = node.connect peer address (first u).1 in
      let (_, _, h₃) = continue-eq-ok (wrap connected.0) _ connected.1 h₂ in
      attempts-Connected n peer connected.1 t h₃

  -- When the messenger reports that it is connected to a peer, lnd's last list of peers has it: the call to
  -- connect is not taken for the connection.
  pub lookup_and_connect-Connected :
      (n : ℕ) (peer : PubKey) (s t : S)
      → lookup_and_connect tlv sphinx node n peer s ≡ (ok tt, t)
      → Connected peer t
  unfolding lookup_and_connect
  lookup_and_connect-Connected n peer s t h =
      let (found, e, k) =
        continue-eq-ok (wrap (find_peer tlv sphinx node peer s).0) _
          (find_peer tlv sphinx node peer s).1 h in
      elim (Bool-cases found) [
        | inl is_so ↦
            found-Connected peer s t (rw is_so at (wrap-eq-ok _ e)) (ap (λ p. p.1) (rw is_so at k))
        | inr not_so ↦
            connect_and_wait-Connected n peer (find_peer tlv sphinx node peer s).1 t
              (rw not_so at k)
      ]
