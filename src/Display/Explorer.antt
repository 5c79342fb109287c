-- ===== src/Display/Explorer.antt =====
-- The trace explorer, frontend/app/(app)/observability/page.tsx.
use llmplane.Common.{
  ℕ, ◌==◌, List, [], ◌∷◌, map, Option, none, some, Text, text_eq, is_empty, if◌then◌else◌,
}
use llmplane.Hooks.Filters.{TraceQuery}
use llmplane.Display.Waterfall.{Trace, WaterfallSpan, build_waterfall}

-- `a || undefined`, for a text.
unfoldable pub or_undefined : Text → Option Text
or_undefined s = if is_empty s then none else some s

-- The filters of the page.
unfoldable pub page_query : Text → Text → TraceQuery
unfolding or_undefined
page_query model_query status = record {
  model_id = or_undefined model_query;
  status = or_undefined status;
  since = none;
  limit = some 100;
}

-- The trace that is shown, of the rows with their ids: the selected one, or else the first.
unfoldable pub find_trace : Text → List (Text × Trace) → Option (Text × Trace)
find_trace id [] = none
find_trace id (row ∷ rows) =
    let rest = find_trace id rows in if text_eq row.0 id then some row else rest

unfoldable pub first_trace : List (Text × Trace) → Option (Text × Trace)
first_trace [] = none
first_trace (row ∷ rows) = some row

unfoldable pub selected_trace : Option Text → List (Text × Trace) → Option (Text × Trace)
unfolding find_trace first_trace
selected_trace none rows = first_trace rows
selected_trace (some id) rows = elim (find_trace id rows) [
  | none ↦ first_trace rows
  | some row ↦ some row
]

-- `selected?.latency_ms || 1`.
unfoldable pub max_total : Option (Text × Trace) → ℕ
max_total none = 1
max_total (some (id, t)) = if t.latency_ms == 0 then 1 else t.latency_ms

-- A bar's margin and width, in parts of `maxTotal`: the style has both as percentages of it.
pub record Bar : Type 0 where
  pub margin_left : ℕ
  pub width : ℕ
  pub out_of : ℕ

unfoldable pub bar_of : ℕ → WaterfallSpan → Bar
bar_of total s = record { margin_left = s.start_ms; width = s.duration_ms; out_of = total }

unfoldable pub bars : (ℕ → ℕ) → (ℕ → ℕ) → Option (Text × Trace) → List Bar
unfolding max_total bar_of
bars quarter six_percent none = []
bars quarter six_percent (some (id, t)) =
    map (bar_of (max_total (some (id, t)))) (build_waterfall quarter six_percent t)
