-- ===== src/Pages/LogScreenLaws.antt =====
-- The pages with filters never take rows of other filters from the cache.
use llmplane.Common.{◌≡◌, refl, [], ◌∷◌, some, Text}
use llmplane.Display.Explorer.{or_undefined, page_query}
use llmplane.Hooks.Queries.{Query, key}
use llmplane.Hooks.FilterKeys.{log_keys_apart, trace_keys_apart}
use llmplane.Pages.LogScreen.{LogsPage, filters, page_key}

or_undefined_injective : (s t : Text) → or_undefined s ≡ or_undefined t → s ≡ t
unfolding or_undefined
or_undefined_injective [] [] e = refl
or_undefined_injective [] (d ∷ t) e = cc
or_undefined_injective (c ∷ s) [] e = cc
or_undefined_injective (c ∷ s) (d ∷ t) e = cc

-- Two states of the log explorer whose queries have the same key have the same search, level, service
-- and polling, and two states of the trace explorer the same model and status: neither shows, of the
-- cache, what other filters have found.
pub filters_apart :
    (p r : LogsPage) (model status model' status' : Text)
    → (page_key p ≡ page_key r
        → (p.q ≡ r.q) × (p.level ≡ r.level) × (p.service ≡ r.service) × (p.live ≡ r.live))
      × (key (Query.traces (some (page_query model status)))
            ≡ key (Query.traces (some (page_query model' status')))
          → (model ≡ model') × (status ≡ status'))
unfolding page_key filters page_query
filters_apart p r model status model' status' = (
  λ e.
      let (q, level, service, live) = log_keys_apart (filters p) (filters r) p.live r.live e in
      (
        or_undefined_injective p.q r.q q,
        or_undefined_injective p.level r.level level,
        or_undefined_injective p.service r.service service,
        live,
      ),
  λ e.
      let (m, s, since) =
        trace_keys_apart (page_query model status) (page_query model' status') e in
      (or_undefined_injective model model' m, or_undefined_injective status status' s),
)
