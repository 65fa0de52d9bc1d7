-- ===== src/Chain.antt =====
-- oracle/src/chain: contract values and transactions.
pub mod ScVal
pub mod Tx
