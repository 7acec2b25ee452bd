-- ===== src/Repository.antt =====
-- `InMemoryHoldRepository` of src/razortrust/repository.py. Its dictionaries are a record, and each
-- method an action on it. A method holds the lock to its end, so an action is atomic. What
-- `uuid4()` and `utc_now()` return stands among the arguments, in the order of the calls.
pub mod State
pub mod Cases
pub mod Submissions
pub mod Reviews
pub mod Exports
pub mod Invariant
pub mod Outcomes
pub mod SubmitOutcome
pub mod ReviewOutcome
pub mod Calls
pub mod Lifecycle
pub mod Authority
pub mod Idempotence
