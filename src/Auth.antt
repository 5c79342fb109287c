-- ===== src/Auth.antt =====
-- Signing in and out: the browser's storage, the login page, the OAuth callback, and the gate.
pub mod Storage
pub mod Login
pub mod LoginLaws
pub mod SessionLaws
pub mod Examples
pub mod Header
pub mod Menu
pub mod Middleware
