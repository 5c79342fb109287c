-- ===== src/Widgets.antt =====
-- Components that the pages share: frontend/components/shared/Chart.tsx and
-- frontend/components/layout/CommandPalette.tsx.
pub mod Values
pub mod Chart
pub mod AxisLaws
pub mod ChartLaws
pub mod Cards
pub mod Palette
pub mod Examples
