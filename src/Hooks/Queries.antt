-- ===== src/Hooks/Queries.antt =====
-- All queries of frontend/hooks/, with the options that each hook gives to `useQuery`.
use llmplane.Common.{ℕ, Bool, Option, Text}
use llmplane.Hooks.Ranges.{TimeRange}
use llmplane.Hooks.Filters.{TraceQuery, EvaluationQuery, LogFilters}
use llmplane.Hooks.Keys.{Key, Reading, QueryOptions}
use llmplane.Hooks.Resources.{
  use_providers, use_provider, use_plugin_manifests, use_deployments, use_deployment_backends,
  use_deployment_telemetry, use_policies, use_active_policy, use_policy, use_prompts, use_prompt,
  use_experiments, use_experiment, use_benchmarks, use_benchmark, use_benchmark_datasets,
}
use llmplane.Hooks.Analytics.{
  CostDimension, use_evaluations, use_evaluation, use_dashboard, use_summary,
  use_dashboard_timeseries, use_error_reasons, use_cost_breakdown, use_cost_over_time,
  use_cost_forecast, use_traces, use_trace_detail, use_logs, use_paginated_query,
}

-- One constructor for each use of `useQuery`, with what its key and its path depend on.
pub data Query : Type 0 where
  providers plugins deployments backends policies active_policy prompts experiments : Query
  benchmarks datasets dashboard command_center : Query
  provider policy prompt experiment evaluation benchmark trace_detail : Text → Query
  telemetry : Text → ℕ → Query
  evaluations : Option EvaluationQuery → Query
  traces : Option TraceQuery → Query
  logs : LogFilters → Bool → Query
  timeseries error_reasons cost_over_time : TimeRange → Query
  cost_breakdown : TimeRange → CostDimension → Query
  cost_forecast : ℕ → Query
  paginated : Text → Bool → Option Text → ℕ → Query

unfoldable pub options : Query → QueryOptions
unfolding use_providers use_provider use_plugin_manifests use_deployments use_deployment_backends
    use_deployment_telemetry use_policies use_active_policy use_policy use_prompts use_prompt
    use_experiments use_experiment use_benchmarks use_benchmark use_benchmark_datasets
    use_evaluations use_evaluation use_dashboard use_summary use_dashboard_timeseries
    use_error_reasons use_cost_breakdown use_cost_over_time use_cost_forecast use_traces
    use_trace_detail use_logs use_paginated_query
options providers = use_providers
options (provider id) = use_provider id
options plugins = use_plugin_manifests
options deployments = use_deployments
options backends = use_deployment_backends
options (telemetry id minutes) = use_deployment_telemetry id minutes
options policies = use_policies
options active_policy = use_active_policy
options (policy id) = use_policy id
options prompts = use_prompts
options (prompt id) = use_prompt id
options experiments = use_experiments
options (experiment id) = use_experiment id
options (evaluations params) = use_evaluations params
options (evaluation id) = use_evaluation id
options benchmarks = use_benchmarks
options (benchmark id) = use_benchmark id
options datasets = use_benchmark_datasets
options dashboard = use_dashboard
options command_center = use_summary
options (timeseries r) = use_dashboard_timeseries r
options (error_reasons r) = use_error_reasons r
options (cost_breakdown r dimension) = use_cost_breakdown r dimension
options (cost_over_time r) = use_cost_over_time r
options (cost_forecast days) = use_cost_forecast days
options (traces params) = use_traces params
options (trace_detail id) = use_trace_detail id
options (logs filters live) = use_logs filters live
options (paginated endpoint enabled cursor page_size) =
    use_paginated_query endpoint enabled cursor page_size

unfoldable pub key : Query → Key
unfolding options
key q = (options q).query_key

unfoldable pub reading : Query → Reading
unfolding options
reading q = (options q).reading

unfoldable pub enabled : Query → Bool
unfolding options
enabled q = (options q).enabled

unfoldable pub path : (Text → Text) → (ℕ → Text) → Query → Text
unfolding options
path encode show q = (options q).path encode show
