-- ===== src/Audit.antt =====
-- The audit ledger: src/egr/audit/ledger.py and src/egr/core/hashing.py.
pub mod Ledger
pub mod Chain
