-- ===== src/Pages.antt =====
-- The pages of frontend/app/(app), less their markup.
pub mod Export
pub mod ExportLaws
pub mod Leaderboard
pub mod LeaderboardSums
pub mod LeaderboardLaws
pub mod Playground
pub mod PlaygroundLaws
pub mod Routing
pub mod Benchmarks
pub mod Rows
pub mod Screens
pub mod Providers
pub mod Prompts
pub mod ScreenLaws
pub mod RetryLaws
pub mod Overview
pub mod LogScreen
pub mod LogScreenLaws
mod TestRetryer
pub mod Examples
