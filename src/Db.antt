-- ===== src/Db.antt =====
-- The tables of a tenant database that the daemon writes, and programs that talk to it.
mod Tables
pub mod Program
pub use Tables.*
