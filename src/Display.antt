-- ===== src/Display.antt =====
-- What the pages show of statuses, traces and traffic, and the sidebar.
pub mod Status
pub mod Waterfall
pub mod Traffic
pub mod Nav
pub mod DisplayLaws
pub mod NavLaws
pub mod Examples
pub mod Explorer
pub mod ExplorerLaws
