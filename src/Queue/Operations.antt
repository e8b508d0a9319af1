-- ===== src/Queue/Operations.antt =====
-- Every operation of SQLClaimStore and SQLChain stays in what its statements stay in.
mod Claims
mod Chains
pub use zatca_integration.Queue.Operations.Claims.{claim-Safe, release-Safe, complete-Safe}
pub use zatca_integration.Queue.Operations.Chains.{
  book-Safe, release_booking-Safe, commit-Safe, stored-Safe, record_outcome-Safe,
}
