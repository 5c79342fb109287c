-- ===== src/Hooks/Resources.antt =====
-- The queries of frontend/hooks/useProviders.ts, useDeployments.ts, usePolicies.ts, usePrompts.ts,
-- useExperiments.ts and useBenchmarks.ts.
use llmplane.Common.{ℕ, ◌*◌, not, [], ◌∷◌, ◌++◌, none, some, Text, text, is_empty}
use llmplane.Hooks.Keys.{QueryOptions, str, nat, whole, listed, get_query, get_item}

unfoldable pub use_providers : QueryOptions
use_providers = get_query (str (text "providers") ∷ []) (text "/providers")

unfoldable pub use_provider : Text → QueryOptions
use_provider id = get_item id (str (text "providers") ∷ str id ∷ []) (text "/providers/" ++ id)

unfoldable pub use_plugin_manifests : QueryOptions
use_plugin_manifests =
    record (get_query (str (text "providers") ∷ str (text "plugins") ∷ [])
      (text "/providers/plugins")) { stale_time = some (5 * 60000) }

unfoldable pub use_deployments : QueryOptions
use_deployments = get_query (str (text "deployments") ∷ []) (text "/deployments")

unfoldable pub use_deployment_backends : QueryOptions
use_deployment_backends =
    get_query (str (text "deployments") ∷ str (text "backends") ∷ []) (text "/deployments/backends")

unfoldable pub use_deployment_telemetry : Text → ℕ → QueryOptions
use_deployment_telemetry id minutes = record {
  query_key = str (text "deployments") ∷ str id ∷ str (text "telemetry") ∷ nat minutes ∷ [];
  path =
      λ encode show. text "/deployments/" ++ (id ++ (text "/telemetry?minutes=" ++ show minutes));
  reading = whole;
  enabled = not (is_empty id);
  refetch_interval = some 15000;
  stale_time = none;
}

unfoldable pub use_policies : QueryOptions
use_policies = get_query (str (text "policies") ∷ []) (text "/routing-policies")

unfoldable pub use_active_policy : QueryOptions
use_active_policy =
    get_query (str (text "policies") ∷ str (text "active") ∷ []) (text "/routing-policies/active")

unfoldable pub use_policy : Text → QueryOptions
use_policy id = get_item id (str (text "policies") ∷ str id ∷ []) (text "/routing-policies/" ++ id)

unfoldable pub use_prompts : QueryOptions
use_prompts = get_query (str (text "prompts") ∷ []) (text "/prompts")

unfoldable pub use_prompt : Text → QueryOptions
use_prompt id = get_item id (str (text "prompts") ∷ str id ∷ []) (text "/prompts/" ++ id)

unfoldable pub use_experiments : QueryOptions
use_experiments = record (get_query (str (text "experiments") ∷ []) (text "/experiments")) {
  reading = listed;
}

unfoldable pub use_experiment : Text → QueryOptions
use_experiment id =
    get_item id (str (text "experiments") ∷ str id ∷ []) (text "/experiments/" ++ id)

unfoldable pub use_benchmarks : QueryOptions
use_benchmarks = get_query (str (text "benchmarks") ∷ []) (text "/benchmarks")

unfoldable pub use_benchmark : Text → QueryOptions
use_benchmark id = get_item id (str (text "benchmarks") ∷ str id ∷ []) (text "/benchmarks/" ++ id)

unfoldable pub use_benchmark_datasets : QueryOptions
use_benchmark_datasets =
    get_query (str (text "benchmark-datasets") ∷ []) (text "/benchmark-datasets")
