-- ===== src/Examples.antt =====
-- The properties at concrete inputs.
pub mod Data
pub mod Accounts
pub mod Console
pub mod Requests
pub mod Channels
pub mod Releases
pub mod Codes
pub mod Notices
pub mod Images
pub mod Routes
pub mod Migrations
