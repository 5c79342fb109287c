-- ===== src/Lib.antt =====
-- Verification of LLMPlane's frontend, the Next.js application under frontend/.
--
-- The parts and the files that model them, in modules below this root:
-- - Common: shared lists, text (UTF-16 code units as numbers), dictionaries and integers.
-- - Api: the client of frontend/lib/api.ts. Api.Url is `resolveBaseUrl`, the guard at startup, and
--   `resolveWsUrl` of frontend/lib/constants.ts; Api.Json and Api.Message are `messageFromBody`;
--   Api.Fetch is `apiFetch` as a state machine whose events are the timer, the caller's signal and
--   the browser's answers, with `unwrapList` and the `retry` of frontend/components/providers.tsx.
-- - Topology: `buildTopology` of frontend/components/command-center/topology.ts, which turns the
--   rows of providers and deployments into the map's nodes and edges. Topology.Build is the
--   function, Topology.Loop the same loop stated by positions.
-- - Logs: `DeploymentLogs` of frontend/components/deployment/DeploymentLogs.tsx. Logs.Frames cuts
--   the event stream into lines, Logs.View is the component with its buttons and its stream.
-- - Wizards: `DeploymentWizard` of frontend/components/deployment/DeploymentWizard.tsx is
--   Wizards.Deploy; `ProviderWizard` of frontend/components/provider-wizard.tsx is
--   Wizards.Provider (state, requirements, requests) and Wizards.ProviderSteps (handlers and
--   answers).
-- - Auth: Auth.Storage has the entries of `localStorage`, `AppLayout` of
--   frontend/app/(app)/layout.tsx, `OAuthCallbackPage` of
--   frontend/app/auth/callback/[provider]/page.tsx and `handleLogout` of
--   frontend/components/layout/Header.tsx; Auth.Header is the name that this shows, Auth.Menu its
--   buttons, and Auth.Middleware the test of frontend/middleware.ts; Auth.Login is `LoginPage` of
--   frontend/app/page.tsx.
-- - Live: `WebSocketProvider` of frontend/components/shared/WebSocketProvider.tsx.
-- - Display: the tones of frontend/lib/status.ts (Display.Status), `buildWaterfall` of
--   frontend/lib/trace-spans.ts (Display.Waterfall) and its bars on
--   frontend/app/(app)/observability/page.tsx (Display.Explorer), `useLiveTraffic` of
--   frontend/components/command-center/useLiveTraffic.ts (Display.Traffic), and the entries of
--   frontend/lib/constants.ts as frontend/components/layout/Sidebar.tsx shows them (Display.Nav).
-- - Deployments: the pages frontend/app/(app)/deployments/page.tsx and
--   frontend/app/(app)/deployments/[id]/page.tsx, with the rows and requests of
--   frontend/hooks/useDeployments.ts (Deployments.Model) and the pages' buttons and dialogs
--   (Deployments.Screens).
-- - Scene: Scene.Center is `useCommandCenter` of frontend/hooks/useCommandCenter.ts and the page
--   around the map, frontend/components/command-center/CommandCenter.tsx. Of
--   frontend/components/command-center/Scene2D.tsx, Scene.Pick is what the pointer hits, `pick`,
--   and the nodes in focus, and Scene.Particles is the part of `draw` that adds, moves and places
--   the particles. Scene.Stream is RequestParticles.tsx beside it, and Scene.Settings store.ts.
-- - Pages: `exportAs` of frontend/app/(app)/logs/page.tsx (Pages.Export), the ranking of
--   frontend/app/(app)/leaderboard/page.tsx (Pages.Leaderboard), the choice of models of
--   frontend/app/(app)/playground/page.tsx (Pages.Playground), the handlers of
--   frontend/app/(app)/routing/page.tsx (Pages.Routing), the upload of
--   frontend/app/(app)/benchmarks/page.tsx (Pages.Benchmarks), the filters of the log explorer
--   (Pages.LogScreen), the rows of lists (Pages.Rows), the buttons of
--   frontend/app/(app)/providers/page.tsx (Pages.Providers) and of prompts/page.tsx beside it
--   (Pages.Prompts), what the pages show of their queries (Pages.Screens), and the values of
--   frontend/app/(app)/cost-analytics/page.tsx and frontend/app/(app)/dashboard/page.tsx
--   (Pages.Overview). Pages.RetryLaws puts a page behind the retries of TanStack Query, an
--   interface, and the answers of Api.
-- - Hooks: the hooks under frontend/hooks/. Hooks.Ranges and Hooks.Filters make the paths of time
--   ranges and filters, Hooks.Resources and Hooks.Analytics are the hooks that read, with their
--   keys (Hooks.Keys), Hooks.Changes those that write; Hooks.Queries and Hooks.Mutations list them
--   all. Hooks.Cache runs them over an interface for the cache of TanStack Query, whose laws are
--   what its documentation says, and Hooks.LiveSync is `useDeploymentLiveSync` between it and
--   Live. Hooks.Pagination is frontend/hooks/usePaginatedQuery.ts, Hooks.Formats the formats of
--   frontend/lib/utils.ts.
-- - Widgets: the theming of frontend/components/shared/Chart.tsx (Widgets.Chart), the cards of
--   frontend/components/ui/cards.tsx (Widgets.Cards), and
--   frontend/components/layout/CommandPalette.tsx (Widgets.Palette).
-- They meet in four places: the queries of Hooks feed Pages and the map and listen to Live, Auth
-- and Api share the key that requests carry, Logs reads the JSON values of Api, and Scene draws
-- the nodes and edges that Topology builds.
--
-- State is a record for each component, and a step function says what each event does to it: a
-- click, an input, an answer, a timer. An event whose control is not on the page, or that answers
-- no request, changes nothing. A run is a list of events in any order: every interleaving of the
-- user with the network is one. What a step sends is part of its result.
--
-- Parameters stand for code outside the sources: `JSON.parse`, `JSON.stringify`, `Number`,
-- `Math.random`, `toFixed`, `TextDecoder`, the printing and the arithmetic of numbers, the two
-- roundings of the waterfall, and what `persist` writes and reads. Requests, sockets and timers
-- are events. What the server's answers do is one too: Hooks.Cache has a set of resources whose
-- answers change without any invalidation. Recursion is structural but for the loops that add
-- particles, which have their capacity, 140 or 280, as fuel, and each round adds one or leaves, and
-- the digits of a number, which has at most as many as it counts.
--
-- Not modelled: the markup, the drawing of charts and scenes, the copies of component kits under
-- frontend/components/charts, frontend/components/kokonutui and, but for cards.tsx,
-- frontend/components/ui, the data that mutations only pass on, and the backend and its workers,
-- which are written in another language.
pub mod Common
pub mod Api
pub mod Topology
pub mod Logs
pub mod Wizards
pub mod Auth
pub mod Live
pub mod Display
pub mod Pages
pub mod Scene
pub mod Deployments
pub mod Hooks
pub mod Widgets
