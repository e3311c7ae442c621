-- ===== src/Web.antt =====
-- The web client: frontend-web/src, without its views.
pub mod Token
pub mod Session
pub mod Requests
pub mod Provider
pub mod Thread
pub mod Unread
pub mod Forms
pub mod Armurerie
pub mod Search
pub mod TwoFactor
