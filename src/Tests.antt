-- ===== src/Tests.antt =====
-- The theorems at concrete inputs.
mod Fixtures
mod Basics
mod Orders
mod PriceBands
mod Clusters
mod Thresholds
mod PendingKeys
mod Texts
mod Decimals
mod Feeds
mod Signatures
mod Cycles
mod Logins
mod Readiness
mod Configs
mod Shutdowns
mod Statuses
mod Requests
mod Snapshots
