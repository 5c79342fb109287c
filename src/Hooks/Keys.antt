-- ===== src/Hooks/Keys.antt =====
-- The keys under which TanStack Query caches the queries of frontend/hooks/, and the options that the
-- hooks give to `useQuery`.
use llmplane.Common.{
  ℕ, Bool, true, not, List, [], ◌∷◌, ◌++◌, Option, none, some, Text, text, is_empty, Dict,
}
use llmplane.Hooks.Filters.{TraceQuery, EvaluationQuery, LogFilters}

-- What a key is made of, as its hash sees it: `undefined` counts as null, and an object is the list of
-- its defined properties.
pub data Scalar : Type 0 where
  words : Text → Scalar
  number : ℕ → Scalar

pub data Part : Type 0 where
  nothing : Part
  flag : Bool → Part
  scalar : Scalar → Part
  object : Dict Scalar → Part

abbrev pub Key : Type 0
Key = List Part

abbrev pub str : Text → Part
str s = scalar (words s)

abbrev pub nat : ℕ → Part
nat n = scalar (number n)

unfoldable pub text_field : Text → Option Text → Dict Scalar
text_field name none = []
text_field name (some value) = (name, words value) ∷ []

unfoldable pub number_field : Text → Option ℕ → Dict Scalar
number_field name none = []
number_field name (some n) = (name, number n) ∷ []

unfoldable pub trace_object : TraceQuery → Dict Scalar
unfolding text_field number_field
trace_object q =
    text_field (text "model_id") q.model_id
    ++ (text_field (text "status") q.status
        ++ (text_field (text "since") q.since ++ number_field (text "limit") q.limit))

unfoldable pub evaluation_object : EvaluationQuery → Dict Scalar
unfolding text_field
evaluation_object q =
    text_field (text "benchmark_id") q.benchmark_id
    ++ (text_field (text "experiment_id") q.experiment_id ++ text_field (text "model") q.model)

unfoldable pub log_object : LogFilters → Dict Scalar
unfolding text_field number_field
log_object f =
    text_field (text "q") f.q
    ++ (text_field (text "level") f.level
        ++ (text_field (text "service") f.service
            ++ (text_field (text "provider") f.provider
                ++ (text_field (text "model") f.model
                    ++ (text_field (text "request_id") f.request_id
                        ++ (text_field (text "trace_id") f.trace_id
                            ++ number_field (text "limit") f.limit))))))

-- `params` and `cursor`, where they may be missing.
abbrev pub object_or_nothing : Option (Dict Scalar) → Part
object_or_nothing none = nothing
object_or_nothing (some o) = object o

abbrev pub text_or_nothing : Option Text → Part
text_or_nothing none = nothing
text_or_nothing (some s) = str s

-- What becomes of the answer: it is taken as it is, through `unwrapList`, or `data` of the page.
pub data Reading : Type 0 where
  whole listed page_data : Reading

-- A path takes `URLSearchParams`' encoding of a value, and `String(n)`.
abbrev pub RequestPath : Type 0
RequestPath = (Text → Text) → (ℕ → Text) → Text

-- The options of `useQuery`. `refetchInterval` and `staleTime` are in milliseconds, if they are set.
pub record QueryOptions : Type 0 where
  pub query_key : Key
  pub path : RequestPath
  pub reading : Reading
  pub enabled : Bool
  pub refetch_interval : Option ℕ
  pub stale_time : Option ℕ

-- A query of a fixed path, with the defaults.
abbrev pub get_query : Key → Text → QueryOptions
get_query k p = record {
  query_key = k;
  path = λ encode show. p;
  reading = whole;
  enabled = true;
  refetch_interval = none;
  stale_time = none;
}

-- The query of an item, with `enabled: !!id`.
abbrev pub get_item : Text → Key → Text → QueryOptions
get_item id k p = record (get_query k p) { enabled = not (is_empty id) }
