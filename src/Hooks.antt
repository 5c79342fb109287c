-- ===== src/Hooks.antt =====
-- The query hooks under frontend/hooks/ with logic of their own, and the number formats of
-- frontend/lib/utils.ts.
pub mod Ranges
pub mod Filters
pub mod FilterLaws
pub mod FilterReads
pub mod Keys
pub mod Resources
pub mod Analytics
pub mod Queries
pub mod QueryLaws
pub mod FilterKeys
pub mod Changes
pub mod Mutations
pub mod MutationLaws
pub mod Cache
pub mod CacheLaws
pub mod LiveSync
pub mod LiveSyncLaws
mod TestCache
pub mod Pagination
pub mod Formats
pub mod FormatLaws
pub mod Examples
