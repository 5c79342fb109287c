-- ===== src/Hooks/MutationLaws.antt =====
-- Which cached queries the mutations of frontend/hooks/ make stale.
use llmplane.Common.{
  ℕ, ◌≡◌, refl, sym, ap, ◌∙◌, ◌↔◌, ◌||◌, [], ◌∷◌, ◌++◌, none, some, Text, text, text_eq,
  text_eq_iff, is_empty, if◌then◌else◌, Dict, ◌==◌, arith, Bool-cases, inl, inr,
}
use llmplane.Hooks.Filters.{
  query_string, filtered_path, evaluation_params, trace_params, evaluations_path, traces_path,
  logs_path,
}
use llmplane.Hooks.Ranges.{timeseries_path, error_reasons_path, cost_over_time_path}
use llmplane.Hooks.Keys.{Scalar, Part, Key, str}
use llmplane.Hooks.Analytics.{given_or, no_evaluation_filter, no_trace_filter}
use llmplane.Hooks.Queries.{Query, key, path}
use llmplane.Hooks.Mutations.{
  Mutation, create_deployment, act_on, delete_deployment, create_policy, update_policy,
  activate_policy, delete_policy, create_prompt, update_prompt, delete_prompt, create_experiment,
  delete_experiment, upload_dataset, delete_dataset, start_run, discover_models, target,
  invalidated,
}

-- The first segment of a path.
unfoldable pub segment_from : Text → Text
segment_from [] = []
segment_from (c ∷ s) = let rest = segment_from s in if c == b'/' || c == b'?' then [] else c ∷ rest

abbrev pub segment : Text → Text
segment [] = []
segment (c ∷ s) = segment_from s

-- The resources that mutations change, and all those that queries read.
data Changed : Type 0 where
  providers deployments policies prompts experiments datasets benchmarks : Changed

data Read : Type 0 where
  changed : Changed → Read
  evaluations dashboard cost traces trace logs : Read

abbrev word_of : Changed → Text
word_of providers = text "providers"
word_of deployments = text "deployments"
word_of policies = text "policies"
word_of prompts = text "prompts"
word_of experiments = text "experiments"
word_of datasets = text "benchmark-datasets"
word_of benchmarks = text "benchmarks"

abbrev slug_of : Changed → Text
slug_of policies = text "routing-policies"
slug_of r = word_of r

abbrev word_read : Read → Text
word_read (changed r) = word_of r
word_read evaluations = text "evaluations"
word_read dashboard = text "dashboard"
word_read cost = text "cost"
word_read traces = text "traces"
word_read trace = text "trace"
word_read logs = text "logs"

abbrev slug_read : Read → Text
slug_read (changed r) = slug_of r
slug_read trace = text "traces"
slug_read r = word_read r

agree :
    (r : Changed) (s : Read) → text_eq (word_of r) (word_read s) ≡ text_eq (slug_of r) (slug_read s)
unfolding text_eq
agree r s = ground arith

-- The queries of the hooks for one resource: all but `usePaginatedQuery`'s.
abbrev pub IsResource : Query → Type 0
IsResource (Query.paginated endpoint on cursor page_size) = ⊥
IsResource q = Unit

abbrev read_of : Query → Read
read_of Query.providers = changed providers
read_of (Query.provider id) = changed providers
read_of Query.plugins = changed providers
read_of Query.deployments = changed deployments
read_of Query.backends = changed deployments
read_of (Query.telemetry id minutes) = changed deployments
read_of Query.policies = changed policies
read_of Query.active_policy = changed policies
read_of (Query.policy id) = changed policies
read_of Query.prompts = changed prompts
read_of (Query.prompt id) = changed prompts
read_of Query.experiments = changed experiments
read_of (Query.experiment id) = changed experiments
read_of (Query.evaluations params) = evaluations
read_of (Query.evaluation id) = evaluations
read_of Query.benchmarks = changed benchmarks
read_of (Query.benchmark id) = changed benchmarks
read_of Query.datasets = changed datasets
read_of (Query.cost_breakdown r dimension) = cost
read_of (Query.cost_over_time r) = cost
read_of (Query.cost_forecast days) = cost
read_of (Query.traces params) = traces
read_of (Query.trace_detail id) = trace
read_of (Query.logs filters live) = logs
read_of q = dashboard

abbrev tail : Key → Key
tail [] = []
tail (part ∷ k) = k

key-read_of : (q : Query) → IsResource q → key q ≡ str (word_read (read_of q)) ∷ tail (key q)
unfolding key
key-read_of (Query.evaluations none) h = refl
key-read_of (Query.evaluations (some q)) h = refl
key-read_of (Query.traces none) h = refl
key-read_of (Query.traces (some q)) h = refl
key-read_of (Query.paginated endpoint on cursor page_size) h = absurd h
key-read_of q h = refl

segment-filtered :
    (encode : Text → Text) (base : Text) (params : Dict Text) (slug : Text)
    → segment (base ++ []) ≡ slug
    → ((query : Text) → segment (base ++ (text "?" ++ query)) ≡ slug)
    → segment (filtered_path encode base params) ≡ slug
unfolding filtered_path
segment-filtered encode base params slug bare more =
    elim (Bool-cases (is_empty (query_string encode params))) [
      | inl e ↦ rw (e, bare)
      | inr e ↦ rw (e, more (query_string encode params))
    ]

segment-path :
    (encode : Text → Text) (show : ℕ → Text) (q : Query)
    → IsResource q
    → segment (path encode show q) ≡ slug_read (read_of q)
unfolding path segment_from evaluations_path traces_path logs_path timeseries_path
    error_reasons_path cost_over_time_path
segment-path encode show (Query.evaluations params) h =
    segment-filtered encode (text "/evaluations")
      (evaluation_params (given_or no_evaluation_filter params)) (text "evaluations") refl
      (λ x. refl)
segment-path encode show (Query.traces params) h =
    segment-filtered encode (text "/traces") (trace_params show (given_or no_trace_filter params))
      (text "traces") refl (λ x. refl)
segment-path encode show (Query.paginated endpoint on cursor page_size) h = absurd h
segment-path encode show q h = refl

abbrev changed_by : Mutation → Changed
changed_by create_deployment = deployments
changed_by (act_on id action) = deployments
changed_by (delete_deployment id remove) = deployments
changed_by create_policy = policies
changed_by (update_policy id) = policies
changed_by (activate_policy id) = policies
changed_by (delete_policy id) = policies
changed_by create_prompt = prompts
changed_by (update_prompt id) = prompts
changed_by (delete_prompt id) = prompts
changed_by create_experiment = experiments
changed_by (delete_experiment id) = experiments
changed_by upload_dataset = datasets
changed_by (delete_dataset id) = datasets
changed_by start_run = benchmarks
changed_by m = providers

-- The resource that a mutation with such a key changes.
resource-exists :
    (m : Mutation) (p : Key)
    → invalidated m ≡ some p
    → (r : Changed) × (p ≡ str (word_of r) ∷ []) × (segment (target m) ≡ slug_of r)
unfolding invalidated target segment_from
resource-exists (discover_models id) p h = cc
resource-exists m p h = (changed_by m, cc, refl)

text_eq-agree : (s t u v : Text) → text_eq s t ≡ text_eq u v → (s ≡ t) ↔ (u ≡ v)
text_eq-agree s t u v e = (
  λ h. (text_eq_iff u v).0 (sym e ∙ (text_eq_iff s t).1 h),
  λ h. (text_eq_iff s t).0 (e ∙ (text_eq_iff u v).1 h),
)

-- `key` starts with `prefix`, as `invalidateQueries` has it.
abbrev pub StartsWith : Key → Key → Type 0
StartsWith [] key = Unit
StartsWith (part ∷ prefix) [] = ⊥
StartsWith (part ∷ prefix) (first ∷ key) = (part ≡ first) × StartsWith prefix key

word_in : Part → Text
word_in (Part.scalar (Scalar.words w)) = w
word_in part = []

-- A mutation that makes a key stale makes a resource's query stale exactly if its path and the path of
-- the query have the same first segment.
pub invalidated_iff :
    (encode : Text → Text) (show : ℕ → Text) (m : Mutation) (p : Key) (q : Query)
    → IsResource q
    → invalidated m ≡ some p
    → StartsWith p (key q) ↔ (segment (target m) ≡ segment (path encode show q))
unfolding word_in
invalidated_iff encode show m p q h e =
    let (r, pe, te) = resource-exists m p e in
    let (to, from) =
      text_eq-agree (word_of r) (word_read (read_of q)) (slug_of r) (slug_read (read_of q))
        (agree r (read_of q)) in
    rw (pe, te, segment-path encode show q h, key-read_of q h)
      (λ s. to (ap word_in s.0), λ s. (ap str (from s), tt))
