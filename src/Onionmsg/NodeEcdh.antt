-- ===== src/Onionmsg/NodeEcdh.antt =====
-- onionmsg/node_ecdh.go: the node's key and its ECDH operations, with lnd's client and its signer as parameters.
use boltnd.Prelude.{ℕ, Bytes}
use boltnd.Prelude.Errors.{Result, ok, wrap, ◌>>=◌}
use boltnd.Lnwire.Tlv.{PubKey}

-- keychain.KeyLocator
pub record KeyLocator : Type 0 where
  pub family : ℕ
  pub index : ℕ

-- LndOnionMsg and LndOnionSigner, as far as the file calls them, with btcec.ParsePubKey: lnd's answer to GetInfo by
-- its IdentityPubkey, and DeriveSharedKey. The signer answers within the timeout or with an error.
pub record Node : Type 0 where
  pub get_info : Result Bytes
  pub parse_pub_key : Bytes → Result PubKey
  pub derive_shared_key : PubKey → KeyLocator → Result Bytes
  pub key_family_node_key : ℕ

pub record NodeEcdh : Type 0 where
  pub signer : PubKey → KeyLocator → Result Bytes
  pub pubkey : PubKey

-- NewNodeECDH
unfoldable pub new_node_ecdh : Node → Result NodeEcdh
new_node_ecdh node = do
  info ← wrap node.get_info
  key ← wrap (node.parse_pub_key info)
  ok (record { signer = node.derive_shared_key; pubkey = key })

-- The methods PubKey and ECDH.
unfoldable pub pub_key_of : NodeEcdh → PubKey
pub_key_of r = r.pubkey

unfoldable pub ecdh : Node → NodeEcdh → PubKey → Result Bytes
ecdh node r key = r.signer key (record { family = node.key_family_node_key; index = 0 })
