-- ===== src/Api.antt =====
-- The API client: base URLs, error messages, one request, list shapes and the retry policy.
pub mod Url
pub mod UrlLaws
pub mod UrlTests
pub mod Json
pub mod Message
pub mod MessageLaws
pub mod Fetch
pub mod FetchLaws
pub mod Examples
