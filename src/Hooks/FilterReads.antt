-- ===== src/Hooks/FilterReads.antt =====
-- What a server reads under each name of the filters' query strings, against a table of the filters.
use llmplane.Common.{
  ℕ, zero, suc, ◌==◌, ◌≡◌, refl, sym, ap, ◌∙◌, false, List, [], ◌∷◌, ◌++◌, append-nil, Option, none,
  some, Text, text, text_eq, if◌then◌else◌, Dict, lookup, arith,
}
use llmplane.Hooks.Filters.{
  TraceQuery, EvaluationQuery, LogFilters, text_param, number_param, limit_or_500,
  evaluation_params, trace_params, log_params, query_string,
}
use llmplane.Hooks.FilterLaws.{IsCoding, read_query, read_query-params}

-- A filter that is missing or empty asks for nothing, and neither does a limit of 0.
abbrev pub filled : Option Text → Option Text
filled none = none
filled (some []) = none
filled (some (c ∷ s)) = some (c ∷ s)

abbrev pub positive : (ℕ → Text) → Option ℕ → Option Text
positive show none = none
positive show (some zero) = none
positive show (some (suc n)) = some (show (suc n))

-- What a table of names and values asks for under a name.
abbrev pub asked : List (Text × Option Text) → Text → Option Text
asked [] j = none
asked ((name, none) ∷ table) j = asked table j
asked ((name, some value) ∷ table) j = if text_eq name j then some value else asked table j

abbrev pub trace_table : (ℕ → Text) → TraceQuery → List (Text × Option Text)
trace_table show q =
    (text "model_id", filled q.model_id)
    ∷ (text "status", filled q.status)
    ∷ (text "since", filled q.since)
    ∷ (text "limit", positive show q.limit)
    ∷ []

abbrev pub evaluation_table : EvaluationQuery → List (Text × Option Text)
evaluation_table q =
    (text "benchmark_id", filled q.benchmark_id)
    ∷ (text "experiment_id", filled q.experiment_id)
    ∷ (text "model", filled q.model)
    ∷ []

-- The logs are limited to 500 unless the filters say otherwise.
abbrev pub log_limit : Option ℕ → ℕ
log_limit none = 500
log_limit (some n) = n

abbrev pub log_table : (ℕ → Text) → LogFilters → List (Text × Option Text)
log_table show f =
    (text "q", filled f.q)
    ∷ (text "level", filled f.level)
    ∷ (text "service", filled f.service)
    ∷ (text "provider", filled f.provider)
    ∷ (text "model", filled f.model)
    ∷ (text "request_id", filled f.request_id)
    ∷ (text "trace_id", filled f.trace_id)
    ∷ (text "limit", some (show (log_limit f.limit)))
    ∷ []

lookup-text_param :
    (j name : Text) (o : Option Text) (ps : Dict Text) (table : List (Text × Option Text))
    → lookup j ps ≡ asked table j
    → lookup j (text_param name o ++ ps) ≡ asked ((name, filled o) ∷ table) j
unfolding text_param lookup
lookup-text_param j name none ps table h = h
lookup-text_param j name (some []) ps table h = h
lookup-text_param j name (some (c ∷ s)) ps table h =
    ap (λ r. if text_eq name j then some (c ∷ s) else r) h

nonzero : (n : ℕ) → (suc n == 0) ≡ false
nonzero n = ground arith

lookup-number_param :
    (show : ℕ → Text) (j name : Text) (o : Option ℕ)
    → lookup j (number_param show name o) ≡ asked ((name, positive show o) ∷ []) j
unfolding number_param lookup
lookup-number_param show j name none = refl
lookup-number_param show j name (some zero) = refl
lookup-number_param show j name (some (suc n)) = rw (nonzero n) refl

limit_or_500-log_limit : (o : Option ℕ) → limit_or_500 o ≡ log_limit o
unfolding limit_or_500
limit_or_500-log_limit none = refl
limit_or_500-log_limit (some n) = refl

module _ (show : ℕ → Text) (j : Text) where
  lookup-trace_params :
      (q : TraceQuery) → lookup j (trace_params show q) ≡ asked (trace_table show q) j
  unfolding trace_params
  lookup-trace_params q = lookup-text_param j (text "model_id") q.model_id _ _ (
      lookup-text_param j (text "status") q.status _ _ (
        lookup-text_param j (text "since") q.since _ _
          (lookup-number_param show j (text "limit") q.limit)))

  lookup-evaluation_params :
      (q : EvaluationQuery) → lookup j (evaluation_params q) ≡ asked (evaluation_table q) j
  unfolding evaluation_params lookup
  lookup-evaluation_params q = lookup-text_param j (text "benchmark_id") q.benchmark_id _ _ (
      lookup-text_param j (text "experiment_id") q.experiment_id _ _ (
        ap (lookup j) (sym (append-nil (text_param (text "model") q.model)))
        ∙ lookup-text_param j (text "model") q.model [] [] refl))

  lookup-log_params : (f : LogFilters) → lookup j (log_params show f) ≡ asked (log_table show f) j
  unfolding log_params lookup
  lookup-log_params f = lookup-text_param j (text "q") f.q _ _ (
      lookup-text_param j (text "level") f.level _ _ (
        lookup-text_param j (text "service") f.service _ _ (
          lookup-text_param j (text "provider") f.provider _ _ (
            lookup-text_param j (text "model") f.model _ _ (
              lookup-text_param j (text "request_id") f.request_id _ _ (
                lookup-text_param j (text "trace_id") f.trace_id _ _
                  (rw (limit_or_500-log_limit f.limit) refl)))))))

module _ (encode decode : Text → Text) (show : ℕ → Text) (coding : IsCoding encode decode) where
  -- With values coded so that they are plain and can be read back, a server that reads the query string of
  -- the traces', the evaluations' or the logs' filters finds under each name the filter of that name, if
  -- it is given and not empty, the limit if it is not 0, for logs 500 where none is given, and nothing under
  -- any other name.
  pub filters_read_back :
      (q : TraceQuery) (e : EvaluationQuery) (f : LogFilters) (j : Text)
      → (lookup j (read_query decode (query_string encode (trace_params show q)))
          ≡ asked (trace_table show q) j)
        × (lookup j (read_query decode (query_string encode (evaluation_params e)))
            ≡ asked (evaluation_table e) j)
        × (lookup j (read_query decode (query_string encode (log_params show f)))
            ≡ asked (log_table show f) j)
  filters_read_back q e f j =
      let (traces, evaluations, logs) = read_query-params encode decode show coding q e f in
      (
        ap (lookup j) traces ∙ lookup-trace_params show j q,
        ap (lookup j) evaluations ∙ lookup-evaluation_params show j e,
        ap (lookup j) logs ∙ lookup-log_params show j f,
      )
