-- ===== src/Processor.antt =====
-- The payment processor's events: src/razortrust/razorpay_processor.py.
pub mod Json
pub mod Records
pub mod Read
pub mod Extract
pub mod Keys
pub mod Normalize
pub mod Reconciliation
pub mod Store
pub mod Engine
pub mod Outcome
pub mod Progress
pub mod Budget
pub mod Drain
pub mod Stats
pub mod Sync
pub mod Pages
pub mod Complete
