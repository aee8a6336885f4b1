-- ===== src/Model.antt =====
-- The data that every service reads and writes: the statuses, the rows of the tables, the database
-- with its transactions.
pub mod Status
pub mod Text
pub mod Rows
pub mod Database
pub mod Chains
pub use Status.*
pub use Text.*
pub use Rows.*
unfoldable pub use Database.*
pub use Chains.*
