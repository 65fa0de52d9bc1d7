-- ===== src/Keeper.antt =====
-- keeper_loop.rs: the loop that writes prices and executes pending orders, deposits and withdrawals.
pub mod Handler
pub mod Run
pub mod Item
pub mod Threshold
pub mod Pending
pub mod Simulate
pub mod Publish
pub mod Balance
pub mod Cycle
pub mod Snapshot
