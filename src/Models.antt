-- ===== src/Models.antt =====
-- internal/domain/models: the rows of the database. Columns that gorm keeps by itself
-- (`created_at` and `updated_at` of assessments and sessions) and that no code reads are left out;
-- a `time.Time` is a number of nanoseconds, 0 being the zero time.
pub mod Assessment
pub mod Session
pub mod Proctor
pub mod Lti
pub mod Webhook
pub use Assessment.*
pub use Session.*
pub use Proctor.*
pub use Lti.*
pub use Webhook.*
