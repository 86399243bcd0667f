-- ===== src/Handlers.antt =====
-- proc/worker and proc/handlers: the handlers of the jobs.
pub mod Env
pub mod Select
pub mod Events
pub mod Misc
pub mod Service
pub mod Channels
pub mod Account
pub mod Offering
pub mod Client
pub mod Supply
pub mod Sends
pub mod Found
pub mod Closing
pub mod Funds
pub mod Opening
pub mod Lifecycle
pub mod Carried
pub mod Created
pub mod Counted
pub mod Filled
pub mod Fetched
pub mod Registered
pub mod Fetch
pub mod Ratings
pub mod Resend
pub mod Table
pub mod Dispatch
