-- ===== src/Activity.antt =====
-- internal/biz/activity and internal/data/activity_*.go: taking part in a raffle.
pub mod Model
pub mod Store
pub mod Pending
pub mod Ledger
pub mod Order
pub mod Partake
pub mod Sku
pub mod Recharge
pub mod Snapshot
