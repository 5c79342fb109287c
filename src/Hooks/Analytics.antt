-- ===== src/Hooks/Analytics.antt =====
-- The queries of frontend/hooks/useEvaluations.ts, useDashboard.ts, useCommandCenter.ts,
-- useCostAnalytics.ts, useTraces.ts, useLogs.ts and usePaginatedQuery.ts.
use llmplane.Common.{ℕ, Bool, true, [], ◌∷◌, ◌++◌, Option, none, some, Text, text, if◌then◌else◌}
use llmplane.Hooks.Ranges.{
  TimeRange, granularity_text, range_hours, granularity_for, error_reason_hours, days_for_range,
  cost_granularity, timeseries_path, error_reasons_path, cost_over_time_path,
}
use llmplane.Hooks.Filters.{
  TraceQuery, EvaluationQuery, LogFilters, evaluations_path, traces_path, logs_path,
}
use llmplane.Hooks.Pagination.{page_path}
use llmplane.Hooks.Keys.{
  QueryOptions, str, nat, flag, whole, listed, page_data, get_query, get_item, object_or_nothing,
  text_or_nothing, object, trace_object, evaluation_object, log_object,
}
use mathlib.Core.Option.{map}

pub data CostDimension : Type 0 where
  model provider day tag : CostDimension

abbrev pub dimension_text : CostDimension → Text
dimension_text model = text "model"
dimension_text provider = text "provider"
dimension_text day = text "day"
dimension_text tag = text "tag"

-- `params?.x`: no parameters ask for what parameters without fields do.
abbrev pub given_or {ℓ} : {A : Type ℓ} → A → Option A → A
given_or d none = d
given_or d (some q) = q

unfoldable pub no_evaluation_filter : EvaluationQuery
no_evaluation_filter = record { benchmark_id = none; experiment_id = none; model = none }

unfoldable pub no_trace_filter : TraceQuery
no_trace_filter = record { model_id = none; status = none; since = none; limit = none }

unfoldable pub use_evaluations : Option EvaluationQuery → QueryOptions
unfolding evaluations_path evaluation_object no_evaluation_filter
use_evaluations params = record {
  query_key = str (text "evaluations") ∷ object_or_nothing (map evaluation_object params) ∷ [];
  path = λ encode show. evaluations_path encode (given_or no_evaluation_filter params);
  reading = listed;
  enabled = true;
  refetch_interval = none;
  stale_time = none;
}

unfoldable pub use_evaluation : Text → QueryOptions
use_evaluation id =
    get_item id (str (text "evaluations") ∷ str id ∷ []) (text "/evaluations/" ++ id)

unfoldable pub use_dashboard : QueryOptions
use_dashboard =
    get_query (str (text "dashboard") ∷ str (text "summary") ∷ []) (text "/dashboard/summary")

-- `summary` of `useCommandCenter`.
unfoldable pub use_summary : QueryOptions
use_summary =
    record (get_query (str (text "dashboard") ∷ str (text "summary") ∷ [])
      (text "/dashboard/summary")) { refetch_interval = some 15000 }

unfoldable pub use_dashboard_timeseries : TimeRange → QueryOptions
unfolding range_hours granularity_for timeseries_path
use_dashboard_timeseries r =
    let hours = range_hours r in
    record {
      query_key =
          str (text "dashboard")
          ∷ str (text "timeseries")
          ∷ nat hours
          ∷ str (granularity_text (granularity_for hours))
          ∷ [];
      path = λ encode show. timeseries_path show r;
      reading = whole;
      enabled = true;
      refetch_interval = none;
      stale_time = none;
    }

unfoldable pub use_error_reasons : TimeRange → QueryOptions
unfolding error_reason_hours error_reasons_path
use_error_reasons r = record {
  query_key = str (text "dashboard") ∷ str (text "error-reasons") ∷ nat (error_reason_hours r) ∷ [];
  path = λ encode show. error_reasons_path show r;
  reading = whole;
  enabled = true;
  refetch_interval = none;
  stale_time = none;
}

unfoldable pub use_cost_breakdown : TimeRange → CostDimension → QueryOptions
unfolding days_for_range
use_cost_breakdown r dimension =
    let days = days_for_range r in
    record {
      query_key =
          str (text "cost")
          ∷ str (text "breakdown")
          ∷ nat days
          ∷ str (dimension_text dimension)
          ∷ [];
      path = λ encode show.
          text "/cost/breakdown?days="
          ++ (show days ++ (text "&dimension=" ++ dimension_text dimension));
      reading = whole;
      enabled = true;
      refetch_interval = none;
      stale_time = none;
    }

unfoldable pub use_cost_over_time : TimeRange → QueryOptions
unfolding days_for_range cost_granularity cost_over_time_path
use_cost_over_time r =
    let days = days_for_range r in
    record {
      query_key =
          str (text "cost")
          ∷ str (text "over-time")
          ∷ nat days
          ∷ str (granularity_text (cost_granularity days))
          ∷ [];
      path = λ encode show. cost_over_time_path show r;
      reading = whole;
      enabled = true;
      refetch_interval = none;
      stale_time = none;
    }

unfoldable pub use_cost_forecast : ℕ → QueryOptions
use_cost_forecast lookback_days = record {
  query_key = str (text "cost") ∷ str (text "forecast") ∷ nat lookback_days ∷ [];
  path = λ encode show. text "/cost/forecast?lookback_days=" ++ show lookback_days;
  reading = whole;
  enabled = true;
  refetch_interval = none;
  stale_time = none;
}

unfoldable pub use_traces : Option TraceQuery → QueryOptions
unfolding traces_path trace_object no_trace_filter
use_traces params = record {
  query_key = str (text "traces") ∷ object_or_nothing (map trace_object params) ∷ [];
  path = λ encode show. traces_path encode show (given_or no_trace_filter params);
  reading = page_data;
  enabled = true;
  refetch_interval = none;
  stale_time = none;
}

unfoldable pub use_trace_detail : Text → QueryOptions
use_trace_detail id =
    get_item id (str (text "trace") ∷ str (text "detail") ∷ str id ∷ []) (text "/traces/" ++ id)

unfoldable pub use_logs : LogFilters → Bool → QueryOptions
unfolding logs_path log_object
use_logs filters live = record {
  query_key = str (text "logs") ∷ object (log_object filters) ∷ flag live ∷ [];
  path = λ encode show. logs_path encode show filters;
  reading = whole;
  enabled = true;
  refetch_interval = if live then some 2000 else none;
  stale_time = none;
}

unfoldable pub use_paginated_query : Text → Bool → Option Text → ℕ → QueryOptions
unfolding page_path
use_paginated_query endpoint enabled cursor page_size = record {
  query_key = str endpoint ∷ text_or_nothing cursor ∷ nat page_size ∷ [];
  path = λ encode show. page_path encode show endpoint page_size cursor;
  reading = whole;
  enabled = enabled;
  refetch_interval = none;
  stale_time = none;
}
