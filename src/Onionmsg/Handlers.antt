-- ===== src/Onionmsg/Handlers.antt =====
-- onionmsg/messenger.go: the handlers for final hop payloads, their registration and what becomes of
-- one onion message. `S` is the world that handlers, router and lnd change.
pub mod Registry
pub mod Dispatch
mod Runs
use boltnd.Prelude.{
  ℕ, zero, suc, Bool, true, false, not, Option, none, some, List, [], ◌∷◌, length, ◌==◌, Bytes,
  if◌then◌else◌,
}
use boltnd.Prelude.Errors.{
  Error, Result, ok, err, wrapped, text, handler_not_found, handler_registered, bad_message,
  bad_onion_blob, final_payload, no_forwarding_onion, no_next_node_id, no_encrypted_data, wrap,
  replace,
}
use boltnd.Prelude.Exec.{Exec, pure, raise, lift, wrapping, replacing, ◌>>=◌, ◌>>◌}
use boltnd.Lnwire.Tlv.{PubKey}
use boltnd.Lnwire.ReplyPath.{ReplyPath}
use boltnd.Lnwire.Payload.{
  FinalHopPayload, OnionMessagePayload, OnionMessage, BlindedRouteData, onion_message_type,
}
use boltnd.Routes.{Packet}

-- OnionMessageHandler: the reply path, the encrypted data and the value.
abbrev pub Handler : Type 0 → Type 0
Handler S = Option ReplyPath → Bytes → Bytes → Exec S Unit

-- A map from tlv types to handlers.
abbrev pub Handlers : Type 0 → Type 0
Handlers S = List (ℕ × Handler S)

-- The type registerHandler: `none` is the request to deregister.
pub record Registration (S : Type 0) : Type 0 where
  pub tlv_type : ℕ
  pub handler : Option (Handler S)

module _ {S : Type 0} where
  unfoldable pub lookup : ℕ → Handlers S → Option (Handler S)
  lookup t [] = none
  lookup t ((u, h) ∷ m) = let rest = lookup t m in if u == t then some h else rest

  -- The built-in `delete`.
  unfoldable pub delete : ℕ → Handlers S → Handlers S
  delete t [] = []
  delete t ((u, h) ∷ m) = let rest = delete t m in if u == t then rest else (u, h) ∷ rest

  -- `m[t] = h`
  unfoldable pub insert : ℕ → Handler S → Handlers S → Handlers S
  unfolding delete
  insert t h m = (t, h) ∷ delete t m

  unfoldable pub deregister : Option (Handler S) → ℕ → Handlers S → Result (Unit {0}) × Handlers S
  deregister none t m = (err (wrapped handler_not_found), m)
  deregister (some _) t m = (ok tt, delete t m)

  unfoldable pub register :
      Option (Handler S) → ℕ → Handler S → Handlers S → Result (Unit {0}) × Handlers S
  register (some _) t h m = (err (wrapped handler_registered), m)
  register none t h m = (ok tt, insert t h m)

  unfoldable pub registration : ℕ → Option (Handler S) → Handlers S → Result (Unit {0}) × Handlers S
  unfolding lookup deregister register
  registration t none m = deregister (lookup t m) t m
  registration t (some h) m = register (lookup t m) t h m

  -- The method registerHandler of the messenger.
  unfoldable pub register_handler : Registration S → Handlers S → Result (Unit {0}) × Handlers S
  unfolding registration
  register_handler request m = registration request.tlv_type request.handler m

-- sphinx.ProcessCode; any other value has no case in the switch.
pub data Action : Type 0 where
  exit_node more_hops failure other : Action

-- sphinx.ProcessedPacket
pub record ProcessedPacket : Type 0 where
  pub action : Action
  pub payload : Bytes
  pub next_packet : Option Packet

-- The type onionMessageKit.
pub record Kit (S : Type 0) : Type 0 where
  pub process_onion : Bytes → Exec S (PubKey × ProcessedPacket)
  pub decode_payload : Bytes → Result OnionMessagePayload
  pub decrypt_data_blob : PubKey → OnionMessagePayload → Result BlindedRouteData
  pub handlers : Option (Handlers S)
  pub forward_message : BlindedRouteData → PubKey → Packet → Exec S Unit

module _ {S : Type 0} where
  -- One payload: a type with no handler is skipped.
  unfoldable pub hand_off : Option (Handler S) → OnionMessagePayload → FinalHopPayload → Exec S Unit
  hand_off none payload final = pure tt
  hand_off (some h) payload final =
      wrapping (h payload.reply_path payload.encrypted_data final.value)

  unfoldable pub dispatch : Handlers S → OnionMessagePayload → List FinalHopPayload → Exec S Unit
  unfolding hand_off lookup
  dispatch m payload [] = pure tt
  dispatch m payload (final ∷ finals) =
      hand_off (lookup final.tlv_type m) payload final >> dispatch m payload finals

  -- The case sphinx.ExitNode.
  unfoldable pub at_exit : Option (Handlers S) → OnionMessagePayload → Exec S Unit
  unfolding dispatch
  at_exit none payload = pure tt
  at_exit (some m) payload = dispatch m payload payload.final_hop_payloads

  -- The case sphinx.MoreHops.
  unfoldable pub forward : Kit S → PubKey → OnionMessagePayload → Option Packet → Exec S Unit
  forward kit blinding payload none = raise no_forwarding_onion
  forward kit blinding payload (some packet) = do
    route_data ← lift (wrap (kit.decrypt_data_blob blinding payload))
    kit.forward_message route_data blinding packet

  unfoldable pub at_more_hops : Kit S → PubKey → OnionMessagePayload → Option Packet → Exec S Unit
  unfolding forward
  at_more_hops kit blinding payload next =
      if length payload.final_hop_payloads == 0
      then forward kit blinding payload next
      else raise (wrapped final_payload)

  unfoldable pub by_action :
      Kit S → PubKey → ProcessedPacket → OnionMessagePayload → Action → Exec S Unit
  unfolding at_exit at_more_hops
  by_action kit blinding packet payload exit_node = at_exit kit.handlers payload
  by_action kit blinding packet payload more_hops =
      at_more_hops kit blinding payload packet.next_packet
  by_action kit blinding packet payload failure = raise bad_message
  by_action kit blinding packet payload other = pure tt

  -- The message is given by its data.
  unfoldable pub handle_onion_message : Kit S → Bytes → Exec S Unit
  unfolding by_action
  handle_onion_message kit message = do
    (blinding, packet) ← replacing (wrapped bad_onion_blob) (kit.process_onion message)
    payload ← lift (replace (wrapped bad_onion_blob) (kit.decode_payload packet.payload))
    by_action kit blinding packet payload packet.action
