-- ===== src/Hooks/QueryLaws.antt =====
-- The keys of the queries of frontend/hooks/ tell apart what is asked for: the path and the reading of
-- an answer are read back from a key.
use llmplane.Common.{
  ℕ, ◌≡◌, refl, sym, ap, true, [], ◌∷◌, ◌++◌, ◌∙◌, append-nil, Option, none, some, Text, text,
  text_eq, starts_with, if◌then◌else◌, Dict, arith,
}
use llmplane.Hooks.Filters.{
  TraceQuery, EvaluationQuery, LogFilters, text_param, number_param, evaluation_params,
  trace_params, log_params, limit_or_500, query_string, filtered_path,
}
use llmplane.Hooks.Pagination.{page_path}
use llmplane.Hooks.Keys.{
  Scalar, Key, words, number, nothing, flag, scalar, object, text_field, number_field, trace_object,
  evaluation_object, log_object, Reading, whole, listed, page_data,
}
use llmplane.Hooks.Queries.{Query, key, path, reading}

-- Only an endpoint starts with a slash; the other keys start with a word.
abbrev pub HasEndpoint : Query → Type 0
HasEndpoint (Query.paginated endpoint on cursor page_size) = starts_with endpoint (text "/") ≡ true
HasEndpoint q = Unit

module _ (show : ℕ → Text) where
  -- The parameters that the properties of an object make.
  abbrev scalar_param : Text × Scalar → Dict Text
  scalar_param (name, words value) = text_param name (some value)
  scalar_param (name, number n) = number_param show name (some n)

  params_of : Dict Scalar → Dict Text
  params_of [] = []
  params_of (f ∷ fs) = scalar_param f ++ params_of fs

  -- Those of a log filter, whose limit comes last.
  log_params_of : Dict Scalar → Dict Text
  log_params_of [] = (text "limit", show 500) ∷ []
  log_params_of ((name, words value) ∷ fs) = text_param name (some value) ++ log_params_of fs
  log_params_of ((name, number n) ∷ fs) = (text "limit", show n) ∷ []

  params_of-text :
      (name : Text) (o : Option Text) (fs : Dict Scalar)
      → params_of (text_field name o ++ fs) ≡ text_param name o ++ params_of fs
  unfolding params_of text_field text_param
  params_of-text name none fs = refl
  params_of-text name (some value) fs = refl

  params_of-number :
      (name : Text) (o : Option ℕ) → params_of (number_field name o) ≡ number_param show name o
  unfolding params_of number_field number_param
  params_of-number name none = refl
  params_of-number name (some n) = ground arith

  params_of-last :
      (name : Text) (o : Option Text) → params_of (text_field name o) ≡ text_param name o
  unfolding params_of text_field text_param
  params_of-last name none = refl
  params_of-last name (some value) = append-nil (text_param name (some value))

  log_params_of-text :
      (name : Text) (o : Option Text) (fs : Dict Scalar)
      → log_params_of (text_field name o ++ fs) ≡ text_param name o ++ log_params_of fs
  unfolding log_params_of text_field text_param
  log_params_of-text name none fs = refl
  log_params_of-text name (some value) fs = refl

  log_params_of-number :
      (name : Text) (o : Option ℕ)
      → log_params_of (number_field name o) ≡ (text "limit", show (limit_or_500 o)) ∷ []
  unfolding log_params_of number_field limit_or_500
  log_params_of-number name none = refl
  log_params_of-number name (some n) = refl

  params_of-trace : (q : TraceQuery) → params_of (trace_object q) ≡ trace_params show q
  unfolding trace_object trace_params
  params_of-trace q = simp (params_of-text, params_of-number)

  params_of-evaluation :
      (q : EvaluationQuery) → params_of (evaluation_object q) ≡ evaluation_params q
  unfolding evaluation_object evaluation_params
  params_of-evaluation q = simp (params_of-text, params_of-last)

  log_params_of-object : (f : LogFilters) → log_params_of (log_object f) ≡ log_params show f
  unfolding log_object log_params
  log_params_of-object f = simp (log_params_of-text, log_params_of-number)

module _ (encode : Text → Text) (show : ℕ → Text) where
  -- Where the first word of a key leads.
  abbrev base_of : Text → Text
  base_of word = if text_eq word (text "policies") then text "routing-policies" else word

  abbrev query_of_list : Text → Dict Text → Text × Reading
  query_of_list word params =
      if text_eq word (text "traces")
      then (filtered_path encode (text "/traces") params, page_data)
      else (filtered_path encode (text "/evaluations") params, listed)

  abbrev cursor_path : Text → Option Text → ℕ → Text × Reading
  cursor_path endpoint cursor n = (page_path encode show endpoint n cursor, whole)

  abbrev hours_path : Text → Text → ℕ → Text × Reading
  hours_path word sub n =
      if text_eq word (text "cost")
      then (text "/cost/forecast?lookback_days=" ++ show n, whole)
      else (text "/dashboard/error-reasons?hours=" ++ show n, whole)

  abbrev ranged_path : Text → ℕ → Text → Text × Reading
  ranged_path sub n last =
      if text_eq sub (text "timeseries")
      then (
        text "/dashboard/timeseries?hours=" ++ (show n ++ (text "&granularity=" ++ last)),
        whole,
      )
      else if text_eq sub (text "breakdown")
      then (text "/cost/breakdown?days=" ++ (show n ++ (text "&dimension=" ++ last)), whole)
      else (text "/cost/over-time?days=" ++ (show n ++ (text "&granularity=" ++ last)), whole)

  -- What the query with such a key asks for.
  abbrev read_key : Key → Text × Reading
  read_key (scalar (words w) ∷ []) =
      (text "/" ++ base_of w, if text_eq w (text "experiments") then listed else whole)
  read_key (scalar (words w) ∷ scalar (words id) ∷ []) =
      (text "/" ++ (base_of w ++ (text "/" ++ id)), whole)
  read_key (scalar (words w) ∷ nothing ∷ []) = query_of_list w []
  read_key (scalar (words w) ∷ object fs ∷ []) = query_of_list w (params_of show fs)
  read_key (scalar (words w) ∷ object fs ∷ flag live ∷ []) =
      (text "/logs?" ++ query_string encode (log_params_of show fs), whole)
  read_key (scalar (words w) ∷ scalar (words sub) ∷ scalar (words id) ∷ []) =
      (text "/traces/" ++ id, whole)
  read_key (scalar (words w) ∷ nothing ∷ scalar (number n) ∷ []) = cursor_path w none n
  read_key (scalar (words w) ∷ scalar (words sub) ∷ scalar (number n) ∷ []) =
      if starts_with w (text "/") then cursor_path w (some sub) n else hours_path w sub n
  read_key (scalar (words w) ∷ scalar (words id) ∷ scalar (words sub) ∷ scalar (number n) ∷ []) =
      (text "/deployments/" ++ (id ++ (text "/telemetry?minutes=" ++ show n)), whole)
  read_key (scalar (words w) ∷ scalar (words sub) ∷ scalar (number n) ∷ scalar (words last) ∷ []) =
      ranged_path sub n last
  read_key k = ([], whole)

  read_key-key : (q : Query) → HasEndpoint q → read_key (key q) ≡ (path encode show q, reading q)
  unfolding key path reading text_eq starts_with
  read_key-key Query.providers h = refl
  read_key-key (Query.provider id) h = refl
  read_key-key Query.plugins h = refl
  read_key-key Query.deployments h = refl
  read_key-key Query.backends h = refl
  read_key-key (Query.telemetry id minutes) h = refl
  read_key-key Query.policies h = refl
  read_key-key Query.active_policy h = refl
  read_key-key (Query.policy id) h = refl
  read_key-key Query.prompts h = refl
  read_key-key (Query.prompt id) h = refl
  read_key-key Query.experiments h = refl
  read_key-key (Query.experiment id) h = refl
  read_key-key (Query.evaluations none) h = refl
  read_key-key (Query.evaluations (some q)) h = rw (params_of-evaluation show q)
  read_key-key (Query.evaluation id) h = refl
  read_key-key Query.benchmarks h = refl
  read_key-key (Query.benchmark id) h = refl
  read_key-key Query.datasets h = refl
  read_key-key Query.dashboard h = refl
  read_key-key Query.command_center h = refl
  read_key-key (Query.timeseries r) h = refl
  read_key-key (Query.error_reasons r) h = refl
  read_key-key (Query.cost_breakdown r dimension) h = refl
  read_key-key (Query.cost_over_time r) h = refl
  read_key-key (Query.cost_forecast days) h = refl
  read_key-key (Query.traces none) h = refl
  read_key-key (Query.traces (some q)) h = rw (params_of-trace show q)
  read_key-key (Query.trace_detail id) h = refl
  read_key-key (Query.logs filters live) h = rw (log_params_of-object show filters)
  read_key-key (Query.paginated endpoint on none n) h = refl
  read_key-key (Query.paginated endpoint on (some cursor) n) h = rw h

  -- Two queries with the same key, of which neither is a page of an endpoint without its slash, ask for
  -- the same path and read the answer in the same way, so each may take what the other has cached.
  pub key_decides :
      (p q : Query)
      → HasEndpoint p
      → HasEndpoint q
      → key p ≡ key q
      → (path encode show p ≡ path encode show q) × (reading p ≡ reading q)
  key_decides p q hp hq e =
      let r : (path encode show p, reading p) ≡ (path encode show q, reading q) =
        sym (read_key-key p hp) ∙ (ap read_key e ∙ read_key-key q hq) in
      (ap (λ x. x.0) r, ap (λ x. x.1) r)
