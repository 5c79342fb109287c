-- ===== src/Logs.antt =====
-- The live container logs of a deployment.
pub mod Frames
pub mod View
pub mod FrameLaws
pub mod Examples
pub mod ViewLaws
