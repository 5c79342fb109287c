-- ===== src/Hooks/Examples.antt =====
-- The theorems of the hooks at concrete pages and numbers.
use llmplane.Common.{
  List, Bool, ◌==◌, if◌then◌else◌, ℕ, ◌+◌, ◌≡◌, ◌↔◌, ◌≢◌, text_eq, text_eq_iff, Bool-cases, inl,
  inr, refl, ap, map, ◌-◌, [], ◌∷◌, Option, none, some, Text, text, lookup, arith,
}
use llmplane.Hooks.Keys.{Reading, str}
use llmplane.Hooks.Queries.{Query, key, path, reading, enabled}
use llmplane.Hooks.QueryLaws.{key_decides}
use llmplane.Hooks.Mutations.{create_deployment, delete_provider, target, invalidated}
use llmplane.Hooks.MutationLaws.{StartsWith, segment, segment_from, invalidated_iff}
use llmplane.Hooks.Cache.{World, visits, mutates, rests, steps, IsCoherent, answer, visit}
use llmplane.Hooks.CacheLaws.{visit_current}
use llmplane.Live.Socket.{Event, mount, on_open, on_close, timer_fires, initial, run}
use llmplane.Hooks.LiveSync.{deployments_topic, deployments_key, mount_sync, receive}
use llmplane.Hooks.LiveSyncLaws.{received_shown}
use llmplane.Hooks.TestCache.{test_cache, get_in_nil}
use llmplane.Hooks.Filters.{
  TraceQuery, EvaluationQuery, LogFilters, trace_params, evaluation_params, log_params,
  query_string,
}
use llmplane.Hooks.FilterLaws.{IsPlain, IsCoding, has_sign, read_query}
use llmplane.Hooks.FilterReads.{asked, trace_table, evaluation_table, log_table, filters_read_back}

abbrev shown : ℕ → Text
shown n = n ∷ []

-- Paths and numbers as they are, for the paths of the queries.
abbrev as_is : Text → Text
as_is s = s

-- The dashboard and the command center share a key.
key_decides_example :
    (path as_is shown Query.dashboard ≡ path as_is shown Query.command_center)
    × (reading Query.dashboard ≡ reading Query.command_center)
unfolding key
key_decides_example = key_decides as_is shown Query.dashboard Query.command_center tt tt refl

-- The deletion of a provider, and a policy that it does not concern.
invalidated_iff_example : StartsWith (str (text "providers") ∷ []) (key Query.active_policy) ↔ (
    segment (target (delete_provider (text "p1"))) ≡ segment (path as_is shown Query.active_policy))
unfolding invalidated
invalidated_iff_example =
    invalidated_iff as_is shown (delete_provider (text "p1")) (str (text "providers") ∷ [])
      Query.active_policy tt refl

abbrev counts : Reading → ℕ → ℕ
counts r n = n

abbrev two_providers : Text → Option ℕ
two_providers x = if text_eq x (text "/providers") then some 2 else some 7

abbrev at_first : World test_cache counts as_is shown
at_first = record { cache = []; server = two_providers }

abbrev after_visit : World test_cache counts as_is shown
after_visit = record at_first {
  cache = visit test_cache counts as_is shown at_first Query.providers;
}

-- A deployment more, and the provider that the backend makes for it.
abbrev one_more : Text → Option ℕ
one_more x =
    if text_eq x (text "/providers")
    then some 3
    else if text_eq x (text "/deployments")
    then some 8
    else some 7

abbrev ProvidersBehind : Text → Type 0
ProvidersBehind s = s ≡ text "providers"

abbrev deployments_read : World test_cache counts as_is shown
deployments_read = record at_first {
  cache = visit test_cache counts as_is shown at_first Query.deployments;
}

abbrev after_create : World test_cache counts as_is shown
after_create = record {
  cache = test_cache.invalidate deployments_read.cache (str (text "deployments") ∷ []);
  server = one_more;
}

empty-IsCoherent : IsCoherent test_cache counts as_is shown ProvidersBehind at_first
empty-IsCoherent q d hq up h = absurd (get_in_nil (key q) d h)

created-ChangesOnly :
    (x : Text)
    → segment x ≢ text "deployments"
    → ¬ ProvidersBehind (segment x)
    → one_more x ≡ two_providers x
unfolding segment_from
created-ChangesOnly x other up = elim (Bool-cases (text_eq x (text "/providers"))) [
  | inl e ↦ absurd (up (ap segment ((text_eq_iff x (text "/providers")).0 e)))
  | inr e ↦ rw e (elim (Bool-cases (text_eq x (text "/deployments"))) [
    | inl d ↦ absurd (other (ap segment ((text_eq_iff x (text "/deployments")).0 d)))
    | inr d ↦ rw d
  ])
]

-- The list of deployments is read, one is created, and the list is read again.
visit_current_example :
    IsCoherent test_cache counts as_is shown ProvidersBehind after_create
    × (test_cache.get
          (visit test_cache counts as_is shown after_create Query.deployments)
          (key Query.deployments)
        ≡ some 8)
unfolding answer path enabled invalidated target segment_from text_eq
visit_current_example =
    visit_current test_cache counts as_is shown ProvidersBehind at_first after_create
      Query.deployments 8 empty-IsCoherent
      (steps (steps rests (visits Query.deployments tt)) (
        mutates create_deployment (str (text "deployments") ∷ []) one_more refl
          created-ChangesOnly))
      tt (λ e. cc) refl refl

-- A coding out of reach of the signs.
abbrev shifted : Text → Text
shifted s = map (λ c. c + 62) s

abbrev shifted_back : Text → Text
shifted_back s = map (λ c. c - 62) s

shifted-IsCoding : IsCoding shifted shifted_back
unfolding has_sign
shifted-IsCoding = record { plain = plain; back = back }
  where
    plain : (s : Text) → IsPlain (shifted s)
    plain [] = refl
    plain (c ∷ s) = ground (arith, plain s)

    back : (s : Text) → shifted_back (shifted s) ≡ s
    back [] = refl
    back (c ∷ s) = cons_eq (omega arith) (back s)
      where
        cons_eq : {a b : ℕ} {x y : Text} → a ≡ b → x ≡ y → a ∷ x ≡ b ∷ y
        cons_eq h k = rw (h, k)

abbrev failures : TraceQuery
failures = record {
  model_id = none;
  status = some (text "a=b&c");
  since = some [];
  limit = some 100;
}

abbrev of_model : EvaluationQuery
of_model = record { benchmark_id = none; experiment_id = none; model = some (text "m") }

abbrev all_logs : LogFilters
all_logs = record {
  q = some (text "boom");
  level = none;
  service = none;
  provider = none;
  model = none;
  request_id = none;
  trace_id = none;
  limit = none;
}

filters_read_back_example :
    (lookup
        (text "status")
        (read_query shifted_back (query_string shifted (trace_params shown failures)))
      ≡ asked (trace_table shown failures) (text "status"))
    × (lookup
          (text "status")
          (read_query shifted_back (query_string shifted (evaluation_params of_model)))
        ≡ asked (evaluation_table of_model) (text "status"))
    × (lookup
          (text "status")
          (read_query shifted_back (query_string shifted (log_params shown all_logs)))
        ≡ asked (log_table shown all_logs) (text "status"))
filters_read_back_example =
    filters_read_back shifted shifted_back shown shifted-IsCoding failures of_model all_logs
      (text "status")

-- A page with the hook is mounted over a connection that was lost once.
abbrev session : List Event
session = mount ∷ mount_sync 7 ∷ on_open ∷ on_close ∷ timer_fires ∷ on_open ∷ []

abbrev only_seven : ℕ → Bool
only_seven c = c == 7

received_shown_example :
    test_cache.get
      (visit test_cache counts as_is shown
        (record after_visit {
          cache = receive test_cache only_seven (run initial session).0 after_visit.cache;
        })
        Query.deployments)
      (key Query.deployments)
    ≡ some 7
unfolding answer path enabled key text_eq deployments_topic deployments_key mount_sync
received_shown_example =
    received_shown test_cache only_seven counts as_is shown session 7 after_visit Query.deployments
      7 refl refl (refl, tt) refl refl
