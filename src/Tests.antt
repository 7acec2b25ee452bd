-- ===== src/Tests.antt =====
-- Concrete data, and the theorems of the header applied to it.
mod Fixtures
mod Holds
mod Rules
mod Ledger
mod Windows
mod Service
mod Processor
mod Timeline
mod Webhook
mod Cycles
mod Checkout
mod Payments
mod Database
