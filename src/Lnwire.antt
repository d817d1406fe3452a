-- ===== src/Lnwire.antt =====
-- The package lnwire: the bolt 12 messages and the onion message payloads.
pub mod Tlv
pub mod Merkle
pub mod ReplyPath
pub mod Payload
pub mod Bolt12
pub mod Offer
pub mod InvoiceRequest
pub mod Invoice
pub mod Sample
