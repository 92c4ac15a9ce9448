-- ===== src/Strategy.antt =====
-- internal/biz/strategy: the raffle.
pub mod Model
pub mod Repo
pub mod Armory
pub mod Chain
pub mod Tree
pub mod Usecase
pub mod AwardStock
pub mod Pools
