-- ===== src/Rpcserver/Life.antt =====
-- rpcserver: the server's life, and the calls that change no state.
use boltnd.Prelude.{ℕ, Bool, true, false, List, Bytes, if◌then◌else◌}
use boltnd.Prelude.Errors.{
  Result, ok, err, panic, stuck, status, text, internal, wrap, replace, ◌>>=◌, ◌>>◌,
}
use boltnd.Lnwire.Bolt12.{Bolt12}
use boltnd.Lnwire.Offer.{Offer}
use boltnd.Routes.{BlindedPath}
use boltnd.Rpcserver.{
  RpcPath, RpcOffer, parse_features, parse_decode_offer_request, compose_blinded_route,
  compose_offer,
}
use boltnd.Rpcserver.Calls.{Gate, wait_for_ready}

-- The flags of a Server, whether it has a messenger, and whether the channel `ready` is closed.
pub record Server : Type 0 where
  pub started : Bool
  pub stopped : Bool
  pub has_messenger : Bool
  pub is_ready : Bool

-- NewServer
abbrev pub new_server : Server
new_server = record { started = false; stopped = false; has_messenger = false; is_ready = false }

-- What Start does with the answer of the messenger's Start.
unfoldable pub start_messenger : Result (Unit {0}) → Server → Result (Unit {0}) × Server
start_messenger (ok _) s = (ok tt, record s { is_ready = true })
start_messenger (err e) s = (wrap (err e), s)
start_messenger panic s = (panic, s)
start_messenger stuck s = (stuck, s)

-- What it does with the answer of NewNodeECDH, on a server that is started now.
unfoldable pub start_with :
    Result (Unit {0}) → Result (Unit {0}) → Server → Result (Unit {0}) × Server
unfolding start_messenger
start_with (ok _) messenger s = start_messenger messenger (record s { has_messenger = true })
start_with (err e) messenger s = (wrap (err e), s)
start_with panic messenger s = (panic, s)
start_with stuck messenger s = (stuck, s)

-- The methods Start and Stop, with the answers of NewNodeECDH and of the messenger.
unfoldable pub start : Result (Unit {0}) → Result (Unit {0}) → Server → Result (Unit {0}) × Server
unfolding start_with
start node_ecdh messenger s =
    let started = start_with node_ecdh messenger (record s { started = true }) in
    if s.started then (err text, s) else started

unfoldable pub stop : Result (Unit {0}) → Server → Result (Unit {0}) × Server
stop messenger s =
    if s.stopped
    then (err text, s)
    else (if s.has_messenger then wrap messenger else ok tt, record s { stopped = true })

-- GenerateBlindedRoute, with the generator's ReplyPath.
unfoldable pub generate_blinded_route :
    (List ℕ → Result BlindedPath) → Gate → List ℕ → Result RpcPath
unfolding wait_for_ready parse_features compose_blinded_route
generate_blinded_route reply_path gate request = do
  wait_for_ready gate
  features ← parse_features request
  route ← replace (status internal) (reply_path features)
  compose_blinded_route route

-- DecodeOffer, with DecodeOfferStr.
unfoldable pub rpc_decode_offer :
    Bolt12 → (Bytes → Bytes) → (Bytes → Result Offer) → Gate → Bytes → Result RpcOffer
unfolding wait_for_ready parse_decode_offer_request compose_offer
rpc_decode_offer b hex decode_offer_str gate request = do
  wait_for_ready gate
  offer_str ← parse_decode_offer_request request
  offer ← decode_offer_str offer_str
  compose_offer b hex offer
