-- ===== src/Data.antt =====
-- The tables of the database and the values of their columns.
mod Schema
mod Jobs
mod Errors
mod Price
mod Chain
pub mod Codec
unfoldable pub use Schema.*
unfoldable pub use Jobs.*
unfoldable pub use Price.*
unfoldable pub use Chain.*
unfoldable pub use Errors.*
