-- ===== src/Checkout.antt =====
-- Checkout sessions: src/razortrust/checkout_bridge.py.
pub mod Rows
pub mod Rules
pub mod Store
pub mod Events
pub mod Reconcile
pub mod Stats
pub mod Agreement
pub mod Keeps
pub mod Calls
pub mod Counts
pub mod Late
