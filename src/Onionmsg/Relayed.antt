-- ===== src/Onionmsg/Relayed.antt =====
-- onionmsg/messenger.go: what the event loop does with one message, with the messenger's own parts in the
-- onionMessageKit.
use boltnd.Prelude.{
  ◌≡◌, ◌<◌, refl, true, Option, none, some, List, [], ◌∷◌, length, ◌==◌, Bytes, arith, Bool-cases,
  ==_iff, inl, inr,
}
use boltnd.Prelude.Errors.{
  Error, Result, ok, err, wrapped, bad_onion_blob, wrap, replace, replace-eq-ok, wrap-eq-ok,
}
use boltnd.Prelude.Exec.{Exec, continue-eq-ok}
use boltnd.Lnwire.Tlv.{PubKey, Tlv, ReadsBack}
use boltnd.Lnwire.Payload.{
  OnionMessagePayload, FinalHopPayload, BlindedRouteData, decode_onion_message_payload,
}
use boltnd.Routes.{Packet, Sphinx}
use boltnd.Onionmsg.Handlers.{
  Handlers, ProcessedPacket, more_hops, Kit, forward, at_more_hops, by_action, handle_onion_message,
}
use boltnd.Onionmsg.Request.{Node, CustomMessage, decrypt_blob}
use boltnd.Onionmsg.Send.{process_onion, forward_message}
use boltnd.Onionmsg.Send.Forwarding.{Forwards, forward_message-Forwards}

module _ {S : Type 0} (tlv : Tlv) (sphinx : Sphinx) (node : Node S) where
  -- The kit that manageOnionMessages makes. The map of handlers is never nil.
  unfoldable pub messenger_kit : Handlers S → Kit S
  messenger_kit m = record {
    process_onion = process_onion tlv sphinx node;
    decode_payload = decode_onion_message_payload tlv;
    decrypt_data_blob = decrypt_blob tlv node.decrypt_blinded_data;
    handlers = some m;
    forward_message = forward_message tlv sphinx node;
  }

  unfoldable pub handle_message : Handlers S → Bytes → Exec S (Unit {0})
  unfolding messenger_kit handle_onion_message
  handle_message m bytes = handle_onion_message (messenger_kit m) bytes

  no_finals : (fs : List FinalHopPayload) → (length fs == 0) ≡ true → fs ≡ []
  no_finals [] h = refl
  no_finals (f ∷ fs) h = let e = (==_iff (length (f ∷ fs)) 0).0 h in absurd (omega arith)

  -- The payload and the packet that a message to relay must have.
  abbrev pub IsRelay :
      PubKey → ProcessedPacket → OnionMessagePayload → Packet → BlindedRouteData → Type 0
  IsRelay blinding packet payload next route_data =
      (decode_onion_message_payload tlv packet.payload ≡ ok payload)
      × (payload.final_hop_payloads ≡ [])
      × (packet.next_packet ≡ some next)
      × (decrypt_blob tlv node.decrypt_blinded_data blinding payload ≡ ok route_data)

  has_next :
      (o : Option PubKey) (route_data : BlindedRouteData) (blinding : PubKey) (packet : Packet)
      (s t : S)
      → route_data.next_node_id ≡ o
      → forward_message tlv sphinx node route_data blinding packet s ≡ (ok tt, t)
      → (next_node : PubKey) × (route_data.next_node_id ≡ some next_node)
  unfolding forward_message
  has_next (some k) route_data blinding packet s t e h = (k, e)
  has_next none route_data blinding packet s t e h = absurd (refused (rw e at h))
    where
      refused : {x : Error} {u : S} → ◌≡◌ {A = Result (Unit {0}) × S} (err x, u) (ok tt, t) → ⊥
      refused h = cc

  forward-decrypted :
      (kit : Kit S) (blinding : PubKey) (payload : OnionMessagePayload) (o : Option Packet)
      (s t : S)
      → forward kit blinding payload o s ≡ (ok tt, t)
      → (next : Packet) × (route_data : BlindedRouteData) × (o ≡ some next)
        × (kit.decrypt_data_blob blinding payload ≡ ok route_data)
        × (kit.forward_message route_data blinding next s ≡ (ok tt, t))
  unfolding forward
  forward-decrypted kit blinding payload none s t h = absurd (refused h)
    where
      refused : {x : Error} {u : S} → ◌≡◌ {A = Result (Unit {0}) × S} (err x, u) (ok tt, t) → ⊥
      refused h = cc
  forward-decrypted kit blinding payload (some next) s t h =
      let (route_data, e, rest) =
        continue-eq-ok (wrap (kit.decrypt_data_blob blinding payload)) _ s h in
      (next, route_data, refl, wrap-eq-ok _ e, rest)

  more_hops-forward :
      (kit : Kit S) (blinding : PubKey) (payload : OnionMessagePayload) (o : Option Packet)
      (s t : S)
      → at_more_hops kit blinding payload o s ≡ (ok tt, t)
      → (payload.final_hop_payloads ≡ []) × (forward kit blinding payload o s ≡ (ok tt, t))
  unfolding at_more_hops
  more_hops-forward kit blinding payload o s t h =
      elim (Bool-cases (length payload.final_hop_payloads == 0)) [
        | inl empty ↦ (no_finals payload.final_hop_payloads empty, (rw empty at h))
        | inr some_final ↦ absurd (refused (rw some_final at h))
      ]
    where
      refused : {x : Error} {u : S} → ◌≡◌ {A = Result (Unit {0}) × S} (err x, u) (ok tt, t) → ⊥
      refused h = cc

  -- Where the decoders read what the encoders wrote and an encoded packet has fewer than 65536 bytes: if the
  -- router says that a message has more hops and the event loop handles it with success, then its payload
  -- decodes and has no final payloads, its encrypted data decrypts to route data with a next node, and the last
  -- thing that was done is to send that node a message which decodes to the next packet and the next blinding
  -- key.
  pub handle_message-Forwards :
      ReadsBack tlv
      → ((packet : Packet) (blob : Bytes)
          → sphinx.packet_encode packet ≡ ok blob
          → length blob < 65536)
      → (m : Handlers S) (bytes : Bytes) (blinding : PubKey) (packet : ProcessedPacket) (s t u : S)
      → process_onion tlv sphinx node bytes s ≡ (ok (blinding, packet), u)
      → packet.action ≡ more_hops
      → handle_message m bytes s ≡ (ok tt, t)
      → (payload : OnionMessagePayload) × (next : Packet) × (route_data : BlindedRouteData)
        × (next_node : PubKey) × (msg : CustomMessage) × (ephemeral : PubKey) × (blob : Bytes)
        × (IsRelay blinding packet payload next route_data)
        × (route_data.next_node_id ≡ some next_node)
        × (node.next_ephemeral blinding ≡ ok ephemeral)
        × (sphinx.packet_encode next ≡ ok blob)
        × (Forwards tlv sphinx node msg next_node route_data ephemeral blob)
        × (node.send_custom_message msg u ≡ (ok tt, t))
  unfolding handle_message handle_onion_message messenger_kit by_action
  handle_message-Forwards reads fits m bytes blinding packet s t u peeled relays h =
      let (payload, decoded, rest) =
        continue-eq-ok
          (replace (wrapped bad_onion_blob) (decode_onion_message_payload tlv packet.payload)) _ u
          (rw peeled at h) in
      let (empty, forwards) =
        more_hops-forward (messenger_kit m) blinding payload packet.next_packet u t
          (rw relays at rest) in
      let (next, route_data, has_packet, decrypted, sent) =
        forward-decrypted (messenger_kit m) blinding payload packet.next_packet u t forwards in
      let (next_node, to_node) =
        has_next route_data.next_node_id route_data blinding next u t refl sent in
      let (msg, ephemeral, blob, e₁, e₂, e₃, e₄) =
        forward_message-Forwards tlv sphinx node reads fits next_node route_data blinding next u t
          to_node sent in
      (
        payload,
        next,
        route_data,
        next_node,
        msg,
        ephemeral,
        blob,
        (replace-eq-ok _ _ decoded, empty, has_packet, decrypted),
        to_node,
        e₁,
        e₂,
        e₃,
        e₄,
      )
