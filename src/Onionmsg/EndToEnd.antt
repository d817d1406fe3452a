-- ===== src/Onionmsg/EndToEnd.antt =====
-- onionmsg/messenger.go: SendMessage at one node, and the event loop's work on its message at the node it is for.
use boltnd.Prelude.{◌≡◌, ◌<◌, none, [], ◌∷◌, length, Bytes}
use boltnd.Prelude.Errors.{ok, wrapped, bad_onion_blob, replace}
use boltnd.Prelude.Exec.{Exec, lift, ◌>>=◌}
use boltnd.Lnwire.Tlv.{PubKey, Tlv}
use boltnd.Lnwire.Payload.{decode_onion_message_payload}
use boltnd.Routes.{PrivKey, Packet, BlindedPath, OnionHop, Sphinx}
use boltnd.Onionmsg.Handlers.{Handlers, ProcessedPacket, exit_node, dispatch}
use boltnd.Onionmsg.Request.{Node}
use boltnd.Onionmsg.Delivered.{lone_hop, IsLone}

abbrev pub exiting : Bytes → ProcessedPacket
exiting payload = record { action = exit_node; payload = payload; next_packet = none }

module _ {R : Type 0} (tlv : Tlv) (sphinx : Sphinx) (receiver : Node R) where
  -- What the packages sphinx and the receiver's router, in its state `u`, do for each other. A blinded path has a hop
  -- and its data for each hop; an onion for the one blinded hop of a path to `target` is read back by the receiver,
  -- whose router, which has not seen it before, is at the exit and finds the payload; an encoded packet is short.
  pub record Opens (target : PubKey) (u : R) : Type 0 where
    pub lone :
        (bk : PrivKey) (k : PubKey) (route : BlindedPath)
        → sphinx.build_blinded_path bk (lone_hop k) ≡ ok route
        → IsLone tlv sphinx route
    pub reads :
        (packet : Packet) (blob : Bytes)
        → sphinx.packet_encode packet ≡ ok blob
        → receiver.packet_decode blob ≡ ok packet
    pub peels :
        (bk sk : PrivKey) (route : BlindedPath) (hop : OnionHop) (packet : Packet)
        → sphinx.build_blinded_path bk (lone_hop target) ≡ ok route
        → route.blinded_hops ≡ hop.node_pub ∷ []
        → sphinx.new_onion_packet (hop ∷ []) sk ≡ ok packet
        → (w : R) × (receiver.process_onion_packet packet (sphinx.pub_key bk) u
            ≡ (ok (exiting hop.payload), w))
    pub short :
        (packet : Packet) (blob : Bytes)
        → sphinx.packet_encode packet ≡ ok blob
        → length blob < 65536

  -- What the handlers get of a payload.
  abbrev pub hand_out : Handlers R → Bytes → Exec R (Unit {0})
  hand_out m bytes =
      lift (replace (wrapped bad_onion_blob) (decode_onion_message_payload tlv bytes))
      >>= λ received. dispatch m received received.final_hop_payloads
