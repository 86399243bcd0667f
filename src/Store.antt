-- ===== src/Store.antt =====
-- The PostgreSQL database as the controller sees it through reform: committed tables, the working
-- copy of an open transaction, and calls that may fail.
mod Monad
pub mod Frames
pub mod Ensures
unfoldable pub use Monad.*
