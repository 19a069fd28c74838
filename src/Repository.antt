-- ===== src/Repository.antt =====
-- internal/repository/: the statements of each repository.
pub mod Users
pub mod Tokens
pub mod LoginLogs
pub mod Access
pub mod Sms
pub mod Roles
pub mod Versions
pub mod Announcements
pub mod Heartbeats
pub mod Migrations
pub mod Stable
