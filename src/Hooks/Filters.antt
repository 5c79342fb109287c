-- ===== src/Hooks/Filters.antt =====
-- The filters of frontend/hooks/useTraces.ts, frontend/hooks/useEvaluations.ts and
-- frontend/hooks/useLogs.ts, and the paths they make. `encode` stands for `URLSearchParams`'
-- encoding of a value, `show` for `String(n)`.
use llmplane.Common.{
  ℕ, ◌==◌, [], ◌∷◌, ◌++◌, map, Option, none, some, Text, text, join, is_empty, if◌then◌else◌, Dict,
}

pub record TraceQuery : Type 0 where
  pub model_id : Option Text
  pub status : Option Text
  pub since : Option Text
  pub limit : Option ℕ

pub record EvaluationQuery : Type 0 where
  pub benchmark_id : Option Text
  pub experiment_id : Option Text
  pub model : Option Text

pub record LogFilters : Type 0 where
  pub q : Option Text
  pub level : Option Text
  pub service : Option Text
  pub provider : Option Text
  pub model : Option Text
  pub request_id : Option Text
  pub trace_id : Option Text
  pub limit : Option ℕ

-- `if (value) sp.set(name, value)`: no name is set twice, so `sp` is the list of what has been set.
unfoldable pub text_param : Text → Option Text → Dict Text
text_param name none = []
text_param name (some value) = if is_empty value then [] else (name, value) ∷ []

-- `limit ?? 500`.
unfoldable pub limit_or_500 : Option ℕ → ℕ
limit_or_500 none = 500
limit_or_500 (some n) = n

unfoldable pub evaluation_params : EvaluationQuery → Dict Text
unfolding text_param
evaluation_params q =
    text_param (text "benchmark_id") q.benchmark_id
    ++ (text_param (text "experiment_id") q.experiment_id ++ text_param (text "model") q.model)

module _ (show : ℕ → Text) where
  -- `if (n) sp.set(name, String(n))`.
  unfoldable pub number_param : Text → Option ℕ → Dict Text
  number_param name none = []
  number_param name (some n) = if n == 0 then [] else (name, show n) ∷ []

  unfoldable pub trace_params : TraceQuery → Dict Text
  unfolding text_param number_param
  trace_params q =
      text_param (text "model_id") q.model_id
      ++ (text_param (text "status") q.status
          ++ (text_param (text "since") q.since ++ number_param (text "limit") q.limit))

  unfoldable pub log_params : LogFilters → Dict Text
  unfolding text_param limit_or_500
  log_params f =
      text_param (text "q") f.q
      ++ (text_param (text "level") f.level
          ++ (text_param (text "service") f.service
              ++ (text_param (text "provider") f.provider
                  ++ (text_param (text "model") f.model
                      ++ (text_param (text "request_id") f.request_id
                          ++ (text_param (text "trace_id") f.trace_id
                              ++ (text "limit", show (limit_or_500 f.limit)) ∷ []))))))

module _ (encode : Text → Text) where
  unfoldable pub entry_text : Text × Text → Text
  entry_text (name, value) = name ++ (text "=" ++ encode value)

  -- `sp.toString()`.
  unfoldable pub query_string : Dict Text → Text
  unfolding entry_text join
  query_string params = join (text "&") (map entry_text params)

  -- `` `${base}${query ? `?${query}` : ""}` ``.
  unfoldable pub filtered_path : Text → Dict Text → Text
  unfolding query_string
  filtered_path base params =
      let query = query_string params in base ++ (if is_empty query then [] else text "?" ++ query)

  unfoldable pub evaluations_path : EvaluationQuery → Text
  unfolding filtered_path evaluation_params
  evaluations_path q = filtered_path (text "/evaluations") (evaluation_params q)

  module _ (show : ℕ → Text) where
    unfoldable pub traces_path : TraceQuery → Text
    unfolding filtered_path trace_params
    traces_path q = filtered_path (text "/traces") (trace_params show q)

    unfoldable pub logs_path : LogFilters → Text
    unfolding query_string log_params
    logs_path f = text "/logs?" ++ query_string (log_params show f)
