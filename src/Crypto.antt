-- ===== src/Crypto.antt =====
-- The package crypto: the QR code, the hash and the signature of an invoice.
pub mod Qr
pub mod Hash
pub mod Sign
