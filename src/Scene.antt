-- ===== src/Scene.antt =====
-- The flat drawing of the map, frontend/components/command-center/Scene2D.tsx.
pub mod Pick
pub mod Particles
pub mod PickLaws
pub mod ParticleLaws
pub mod DrawLaws
pub mod Center
pub mod CenterLaws
pub mod Stream
pub mod StreamLaws
pub mod Settings
pub mod Examples
