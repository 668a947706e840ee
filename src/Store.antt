-- ===== src/Store.antt =====
-- internal/store: what the operator keeps in memory between two reconciliations.
pub mod Host
pub mod Monitor
pub mod Auth
