-- ===== src/Topology.antt =====
-- The map of the infrastructure that the Command Center draws.
pub mod Types
pub mod Status
pub mod Build
pub mod Loop
pub mod Graph
pub mod Coverage
pub mod Layout
pub mod Names
pub mod Examples
