-- ===== src/Ui.antt =====
-- ui: the requests of the user interface.
pub mod Env
pub mod Access
pub mod Channels
pub mod Usage
pub mod Market
pub mod Offerings
pub mod Accounts
pub mod Records
pub mod Auth
pub mod Denied
pub mod Cost
pub mod Default
mod Rules
pub mod Made
pub mod Fitting
pub mod Accepted
pub mod Resealed
pub mod Renewed
