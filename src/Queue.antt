-- ===== src/Queue.antt =====
-- The package queue: envelopes, claims, the invoice chain and the ordered stream.
pub mod Message
pub mod Types
pub mod Evidence
pub mod Claim
pub mod Chain
pub mod Record
pub mod Rules
pub mod Kept
pub mod Preflight
pub mod Operations
pub mod Stream
