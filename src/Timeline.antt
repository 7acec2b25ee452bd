-- ===== src/Timeline.antt =====
-- The point-in-time snapshots of a merchant: src/razortrust/processor_timeline.py.
pub mod Observations
pub mod Latest
pub mod Quality
pub mod Snapshot
pub mod Knowledge
pub mod Firewall
