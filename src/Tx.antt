-- ===== src/Tx.antt =====
-- tx/: transactions, their phases, the journal, and the choice of a strategy.
pub mod Phase
pub mod Strategy
pub mod Journal
pub mod Recovery
pub mod Locks
