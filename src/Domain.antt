-- ===== src/Domain.antt =====
-- The data of src/razortrust/domain.py: the enumerations and the Pydantic models that the services
-- pass to one another. A UUID is a number, a datetime the microseconds of its UTC instant since year 1, and a
-- float an element of the type `F`. A value of a model is one that Pydantic has accepted.
pub mod Enums
pub mod Hold
pub mod Scoring
pub mod Evidence
pub mod Review
pub mod Decision
pub use Enums.*
pub use Hold.*
pub use Scoring.*
pub use Evidence.*
unfoldable pub use Review.*
pub use Decision.*
