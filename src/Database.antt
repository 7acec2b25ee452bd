-- ===== src/Database.antt =====
-- The SQL repository of holds: src/razortrust/database.py.
pub mod Tables
pub mod Queries
pub mod Holds
pub mod Decisions
pub mod Evidence
pub mod Reviews
pub mod Chain
pub mod Steps
pub mod EvidenceSteps
pub mod Calls
pub mod Races
