-- ===== src/PriceLoop.antt =====
-- price_loop.rs: how the prices of the cache are made, cycle by cycle.
pub mod Source
pub mod Build
pub mod Cycle
