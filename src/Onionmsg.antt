-- ===== src/Onionmsg.antt =====
-- The package onionmsg: messenger.go and onion.go.
pub mod Delivered
pub mod EndToEnd
pub mod Handlers
pub mod Messenger
pub mod NodeEcdh
pub mod Relayed
pub mod Request
mod Runs
pub mod Send
pub mod Threads
