-- ===== src/Onionmsg/Send/Destination.antt =====
-- Where a message goes that `SendMessage` sends over a direct connection (onionmsg/messenger.go).
use boltnd.Prelude.{ℕ, some, List, [], ◌∷◌, ◌≡◌, refl, ◌∙◌, true}
use boltnd.Prelude.Errors.{ok, wrap, wrap-eq-ok, >>=-eq-ok, ok-injective}
use boltnd.Prelude.Exec.{Exec, pure, continue-eq-ok, continue_assoc, ◌>>=◌}
use boltnd.Lnwire.Tlv.{PubKey, Tlv}
use boltnd.Lnwire.Payload.{encode_onion_message}
use boltnd.Routes.{PrivKey, Sphinx, BlindedRouteResponse, create_blinded_route}
use boltnd.Routes.FirstNode.{create_blinded_route-first_node}
use boltnd.Onionmsg.Request.{
  SendMessageRequest, Node, CustomMessage, target_peer, custom_onion_message,
}
use boltnd.Onionmsg.Send.{along, lookup_and_connect, send_path, send_along, send_message}

module _ {S : Type 0} (tlv : Tlv) (sphinx : Sphinx) (node : Node S) where
  -- The message holds the onion of a blinded route for the request along `path`.
  abbrev pub Sent : SendMessageRequest → List PubKey → CustomMessage → S → Type 0
  Sent req path msg t =
      (session_key blinding_key : PrivKey) × (response : BlindedRouteResponse) × (s : S)
      × (create_blinded_route tlv sphinx (along req session_key blinding_key path) ≡ ok response)
      × (encode_onion_message tlv response.onion_message ≡ ok msg.payload)
      × (node.send_custom_message msg s ≡ (ok tt, t))

  custom_onion_message-parts :
      (peer : PubKey) (response : BlindedRouteResponse) (msg : CustomMessage)
      → custom_onion_message tlv peer response.onion_message ≡ ok msg
      → (msg.peer ≡ peer) × (encode_onion_message tlv response.onion_message ≡ ok msg.payload)
  unfolding custom_onion_message
  custom_onion_message-parts peer response msg h =
      let (bytes, e, h₁) = >>=-eq-ok (wrap (encode_onion_message tlv response.onion_message)) _ h in
      let made = ok-injective h₁ in rw (← made) (refl, wrap-eq-ok _ e)

  send_along-Sent :
      (req : SendMessageRequest) (session_key blinding_key : PrivKey) (k : PubKey)
      (ks : List PubKey) (s t : S)
      → send_along tlv sphinx node req session_key blinding_key (k ∷ ks) s ≡ (ok tt, t)
      → (msg : CustomMessage) × (msg.peer ≡ k) × Sent req (k ∷ ks) msg t
  unfolding send_along
  send_along-Sent req session_key blinding_key k ks s t h =
      let (response, e, h₁) =
        continue-eq-ok
          (wrap (create_blinded_route tlv sphinx (along req session_key blinding_key (k ∷ ks)))) _ s
          h in
      let (msg, made, sent) =
        continue-eq-ok (wrap (custom_onion_message tlv response.first_node response.onion_message))
          _ s h₁ in
      let (peer, bytes) =
        custom_onion_message-parts response.first_node response msg (wrap-eq-ok _ made) in
      let first =
        create_blinded_route-first_node tlv sphinx (along req session_key blinding_key (k ∷ ks)) k
          ks response refl (wrap-eq-ok _ e) in
      (msg, peer ∙ first, (session_key, blinding_key, response, s, wrap-eq-ok _ e, bytes, sent))

  -- What follows a direct connection is given the path of the target alone.
  send_path-direct :
      (attempts : ℕ) (target : PubKey) (next : List PubKey → Exec S (Unit {0})) (s t : S)
      → (send_path tlv sphinx node attempts (some target) true >>= next) s ≡ (ok tt, t)
      → (u : S) × (next (target ∷ []) u ≡ (ok tt, t))
  unfolding send_path
  send_path-direct attempts target next s t h =
      let found = (lookup_and_connect tlv sphinx node attempts target s).0 in
      let u = (lookup_and_connect tlv sphinx node attempts target s).1 in
      let (_, _, k) =
        continue-eq-ok (wrap found) (λ _. pure (target ∷ []) >>= next) u
          (continue_assoc (wrap found) (λ _. pure (target ∷ [])) next u ∙ h) in
      (u, k)

  -- A direct message that is sent with success goes to the target, and holds the onion of a blinded route
  -- for the request whose only hop is the target.
  pub send_message-direct :
      (attempts : ℕ) (req : SendMessageRequest) (target : PubKey) (s t : S)
      → req.direct_connect ≡ true
      → target_peer req ≡ some target
      → send_message tlv sphinx node attempts req s ≡ (ok tt, t)
      → (msg : CustomMessage) × (msg.peer ≡ target) × Sent req (target ∷ []) msg t
  unfolding send_message send_path
  send_message-direct attempts req target s t direct to h =
      let new = node.new_private_key s in
      let (session_key, _, h₁) = continue-eq-ok (wrap new.0) _ new.1 h in
      let again = node.new_private_key new.1 in
      let (blinding_key, _, h₂) = continue-eq-ok (wrap again.0) _ again.1 h₁ in
      let (u, sent) = send_path-direct attempts target _ again.1 t (rw (to, direct) at h₂) in
      send_along-Sent req session_key blinding_key target [] u t sent
