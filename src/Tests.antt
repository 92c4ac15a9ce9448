-- ===== src/Tests.antt =====
-- Runs of the theorems at concrete states.
mod Raffle
mod Partake
mod Sku
mod Runs
mod Requests
mod Recharges
mod Draws
mod Stocks
