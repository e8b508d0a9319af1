-- ===== src/Processor.antt =====
-- The package processor: what ZATCA's answer to an invoice means.
pub mod Answer
pub mod Bill
pub mod Onboard
