-- ===== src/Handler.antt =====
-- internal/handler/: the handlers of requests over the services.
pub mod Responses
pub mod Bodies
pub mod Accounts
pub mod Users
pub mod Admin
pub mod Versions
pub mod Heartbeats
pub mod Announcements
