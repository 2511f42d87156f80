-- ===== src/Session/Consistency.antt =====
-- The invariant of the session tables: identifiers are unique, a user has at most one open session
-- of a delivery, and no more sessions of it than the delivery allows.
pub mod Invariant
mod Starting
mod Saving
mod Submitting
pub use Starting.*
pub use Saving.*
pub use Submitting.*
