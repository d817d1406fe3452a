-- ===== src/Onionmsg/Send/Forwarding.antt =====
-- The message that the messenger forwards (onionmsg/messenger.go, forwardMessage).
use boltnd.Prelude.{some, [], length, ◌≡◌, ◌<◌, refl, Bytes}
use boltnd.Prelude.Errors.{ok, wrap, wrap-eq-ok}
use boltnd.Prelude.Exec.{continue-eq-ok, wrapping-eq-ok}
use boltnd.Lnwire.Tlv.{PubKey, Tlv, ReadsBack}
use boltnd.Lnwire.Payload.{
  BlindedRouteData, onion_message_type, encode_onion_message, decode_onion_message,
}
use boltnd.Lnwire.Payload.Final.{decode-encode_onion_message}
use boltnd.Routes.{Packet, Sphinx}
use boltnd.Onionmsg.Request.{Node, CustomMessage}
use boltnd.Onionmsg.Send.{next_message, forward_to, forward_message}
use mathlib.Core.List.{append-nil}

module _ {S : Type 0} (tlv : Tlv) (sphinx : Sphinx) (node : Node S) where
  -- A message as the next node is to have it: addressed to that node, and read back as the packet's bytes
  -- with the next blinding key, the override where the route data has one.
  abbrev pub Forwards : CustomMessage → PubKey → BlindedRouteData → PubKey → Bytes → Type 0
  Forwards msg next_node route_data ephemeral blob =
      (msg.peer ≡ next_node)
      × (msg.msg_type ≡ onion_message_type)
      × (decode_onion_message tlv msg.payload ≡ ok (next_message route_data ephemeral blob))

  encoded-Forwards :
      ReadsBack tlv
      → (next_node : PubKey) (route_data : BlindedRouteData) (ephemeral : PubKey)
        (blob bytes : Bytes)
      → length blob < 65536
      → encode_onion_message tlv (next_message route_data ephemeral blob) ≡ ok bytes
      → Forwards
          (record { peer = next_node; msg_type = onion_message_type; payload = bytes })
          next_node
          route_data
          ephemeral
          blob
  encoded-Forwards reads next_node route_data ephemeral blob bytes fits e = (
    refl,
    refl,
    (rw (append-nil bytes) at (
        decode-encode_onion_message tlv (next_message route_data ephemeral blob) bytes reads fits e
          [])),
  )

  -- Where the decoders read what the encoders wrote and an encoded packet has fewer than 65536
  -- bytes, a message that is forwarded with success was sent to the next node of the route data,
  -- and decodes to the packet that was forwarded and the next blinding key, which is the override
  -- if there is one.
  pub forward_message-Forwards :
      ReadsBack tlv
      → ((packet : Packet) (blob : Bytes)
          → sphinx.packet_encode packet ≡ ok blob
          → length blob < 65536)
      → (next_node : PubKey) (route_data : BlindedRouteData) (blinding : PubKey) (packet : Packet)
        (s t : S)
      → route_data.next_node_id ≡ some next_node
      → forward_message tlv sphinx node route_data blinding packet s ≡ (ok tt, t)
      → (msg : CustomMessage) × (ephemeral : PubKey) × (blob : Bytes) × (node.next_ephemeral
            blinding
          ≡ ok ephemeral)
        × (sphinx.packet_encode packet ≡ ok blob)
        × Forwards msg next_node route_data ephemeral blob
        × (node.send_custom_message msg s ≡ (ok tt, t))
  unfolding forward_message forward_to
  forward_message-Forwards reads fits next_node route_data blinding packet s t next h =
      let (ephemeral, e₁, h₁) =
        continue-eq-ok (wrap (node.next_ephemeral blinding)) _ s (rw next at h) in
      let (blob, e₂, h₂) = continue-eq-ok (wrap (sphinx.packet_encode packet)) _ s h₁ in
      let (bytes, e₃, h₃) =
        continue-eq-ok (wrap (encode_onion_message tlv (next_message route_data ephemeral blob))) _
          s h₂ in
      let msg : CustomMessage = record {
        peer = next_node;
        msg_type = onion_message_type;
        payload = bytes;
      } in
      (
        msg,
        ephemeral,
        blob,
        wrap-eq-ok _ e₁,
        wrap-eq-ok _ e₂,
        encoded-Forwards reads next_node route_data ephemeral blob bytes
            (fits packet blob (wrap-eq-ok _ e₂)) (wrap-eq-ok _ e₃),
        wrapping-eq-ok (node.send_custom_message msg) s h₃,
      )
