-- ===== src/Daemon.antt =====
-- The worker process (cmd/daemon): what it does with a delivery, and with a reconciliation request.
pub mod Delivery
pub mod Reconcile
pub mod Branches
pub mod Topology
pub mod Keeps
pub mod Workers
