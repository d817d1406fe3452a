-- ===== src/Rpcserver/Startup.antt =====
-- rpcserver/server.go: Start with the node's key and the messenger that it makes.
use boltnd.Prelude.{◌≡◌, ◌↔◌, refl, true, false, Bytes}
use boltnd.Prelude.Errors.{Result, ok, err, panic, stuck, wrap, wrap-eq-ok, ◌>>=◌, >>=-eq-ok}
use boltnd.Lnwire.Tlv.{PubKey}
use boltnd.Onionmsg.Messenger.{Life}
use boltnd.Onionmsg.Messenger
use boltnd.Onionmsg.NodeEcdh.{Node, NodeEcdh, new_node_ecdh}
use boltnd.Rpcserver.Life.{Server, new_server, start_messenger, start_with, start}

abbrev pub made : Result NodeEcdh → Result (Unit {0})
made r = r >>= λ _. ok tt

-- NewOnionMessenger's flags.
abbrev pub new_life : Life
new_life = record { started = false; stopped = false }

-- Start on a server with lnd's services: NewNodeECDH, and the Start of a new messenger with the answer of the
-- router's Start.
unfoldable pub start_server : Node → Result (Unit {0}) → Server → Result (Unit {0}) × Server
unfolding start
start_server node router s = start (made (new_node_ecdh node)) (Messenger.start router new_life).0 s

-- lnd tells its key, the key parses, and the router starts.
abbrev pub IsServing : Node → Result (Unit {0}) → Type 0
IsServing node router =
    (info : Bytes) × (key : PubKey) × (node.get_info ≡ ok info)
    × (node.parse_pub_key info ≡ ok key)
    × (router ≡ ok tt)

start-eq-ok :
    (r q : Result (Unit {0})) → (start r q new_server).0 ≡ ok tt ↔ ((r ≡ ok tt) × (q ≡ ok tt))
unfolding start start_with start_messenger
start-eq-ok (ok _) (ok _) = (λ _. (refl, refl), λ _. refl)
start-eq-ok (ok _) (err e) = (λ h. cc, λ (h, k). cc)
start-eq-ok (ok _) panic = (λ h. cc, λ (h, k). cc)
start-eq-ok (ok _) stuck = (λ h. cc, λ (h, k). cc)
start-eq-ok (err e) q = (λ h. cc, λ (h, k). cc)
start-eq-ok panic q = (λ h. cc, λ (h, k). cc)
start-eq-ok stuck q = (λ h. cc, λ (h, k). cc)

-- The channel `ready` is closed exactly on a success.
start-ready :
    (r q : Result (Unit {0}))
    → (start r q new_server).1.is_ready ≡ true ↔ ((start r q new_server).0 ≡ ok tt)
unfolding start start_with start_messenger
start-ready (ok _) (ok _) = (λ _. refl, λ _. refl)
start-ready (ok _) (err e) = (λ h. cc, λ h. cc)
start-ready (ok _) panic = (λ h. cc, λ h. cc)
start-ready (ok _) stuck = (λ h. cc, λ h. cc)
start-ready (err e) q = (λ h. cc, λ h. cc)
start-ready panic q = (λ h. cc, λ h. cc)
start-ready stuck q = (λ h. cc, λ h. cc)

new_node_ecdh-eq-ok :
    (node : Node)
    → made (new_node_ecdh node) ≡ ok tt
    → (info : Bytes) × (key : PubKey) × (node.get_info ≡ ok info)
      × (node.parse_pub_key info ≡ ok key)
unfolding new_node_ecdh
new_node_ecdh-eq-ok node h =
    let (r, e, _) = >>=-eq-ok (new_node_ecdh node) (λ _. ok tt) h in
    let (info, told, rest) =
      >>=-eq-ok (wrap node.get_info)
        (λ info. wrap (node.parse_pub_key info) >>= λ key. ok (with key)) e in
    let (key, parsed, _) = >>=-eq-ok (wrap (node.parse_pub_key info)) (λ key. ok (with key)) rest in
    (info, key, wrap-eq-ok node.get_info told, wrap-eq-ok (node.parse_pub_key info) parsed)
  where
    with : PubKey → NodeEcdh
    with key = record { signer = node.derive_shared_key; pubkey = key }

-- The Start of a new server succeeds exactly if lnd tells its key, the key parses and the router starts; and exactly
-- then the channel `ready`, which the calls wait for, is closed.
pub start_server-IsServing :
    (node : Node) (router : Result (Unit {0}))
    → let after = start_server node router new_server in
      ((after.0 ≡ ok tt) ↔ (IsServing node router))
      × ((after.1.is_ready ≡ true) ↔ (IsServing node router))
unfolding start_server new_node_ecdh Messenger.start
start_server-IsServing node router = (
  (forwards, backwards),
  (
    λ h. forwards ((start-ready (made (new_node_ecdh node)) (wrap router)).0 h),
    λ h. (start-ready (made (new_node_ecdh node)) (wrap router)).1 (backwards h),
  ),
)
  where
    forwards :
        (start (made (new_node_ecdh node)) (wrap router) new_server).0 ≡ ok tt
        → IsServing node router
    forwards h =
        let (node_made, started) = (start-eq-ok (made (new_node_ecdh node)) (wrap router)).0 h in
        let (info, key, told, parsed) = new_node_ecdh-eq-ok node node_made in
        (info, key, told, parsed, wrap-eq-ok router started)

    backwards :
        IsServing node router
        → (start (made (new_node_ecdh node)) (wrap router) new_server).0 ≡ ok tt
    backwards (info, key, told, parsed, started) =
        (start-eq-ok (made (new_node_ecdh node)) (wrap router)).1 (rw (told, parsed), rw started)
