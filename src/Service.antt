-- ===== src/Service.antt =====
-- internal/service/: the services over the repositories.
pub mod Packages
pub mod Access
pub mod Sms
pub mod Auth
pub mod Users
pub mod Admin
pub mod Versions
pub mod Captcha
pub mod Announcements
pub mod Heartbeats
pub mod Stable
pub mod Revocation
