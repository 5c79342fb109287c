-- ===== src/Hooks/FilterKeys.antt =====
-- The filters of a query can be told from its key.
use mathlib.Core.Option.{map}
use llmplane.Common.{
  ◌≡◌, refl, sym, ap, ◌∙◌, Bool, true, false, not, ◌&&◌, ◌||◌, any, List, [], ◌∷◌, ◌++◌, Option,
  none, some, Text, text, text_eq, text_eq_refl, Dict, arith, ℕ, and-eq-true,
}
use llmplane.Hooks.Filters.{TraceQuery, LogFilters}
use llmplane.Hooks.Keys.{
  Scalar, words, number, Key, object, flag, text_field, number_field, trace_object, log_object,
}
use llmplane.Hooks.Queries.{Query, key}

-- A value or none for each name, and the object of those there are.
abbrev Row : List Text → Type 0
Row [] = Unit
Row (n ∷ ns) = Option Scalar × Row ns

fields : (ns : List Text) → Row ns → Dict Scalar
fields [] r = []
fields (n ∷ ns) (none, r) = fields ns r
fields (n ∷ ns) (some v, r) = (n, v) ∷ fields ns r

abbrev distinct : List Text → Bool
distinct [] = true
distinct (n ∷ ns) = not (any (text_eq n) ns) && distinct ns

has_name : Text → Dict Scalar → Bool
has_name n [] = false
has_name n ((m, v) ∷ fs) = text_eq n m || has_name n fs

has_name-fields :
    (n : Text) (ns : List Text) (r : Row ns)
    → any (text_eq n) ns ≡ false
    → has_name n (fields ns r) ≡ false
unfolding has_name fields
has_name-fields n [] r h = refl
has_name-fields n (m ∷ ns) (none, r) h = ground (arith, h, has_name-fields n ns r)
has_name-fields n (m ∷ ns) (some v, r) h = ground (arith, h, has_name-fields n ns r)

-- The first name is in one of the two objects only.
lopsided :
    (n : Text) (ns : List Text) (r : Row ns) (v : Scalar) (fs : Dict Scalar)
    → any (text_eq n) ns ≡ false
    → fields ns r ≡ (n, v) ∷ fs
    → ⊥
unfolding has_name
lopsided n ns r v fs h e =
    apart (sym (has_name-fields n ns r h) ∙ (ap (has_name n) e ∙ rw (text_eq_refl n)))
  where
    apart : false ≡ true → ⊥
    apart k = cc

cons-injective :
    {n : Text} {v w : Scalar} {fs gs : Dict Scalar}
    → (n, v) ∷ fs ≡ (n, w) ∷ gs
    → (v ≡ w) × (fs ≡ gs)
cons-injective e = (cc, cc)

fields_injective :
    (ns : List Text) (r s : Row ns) → distinct ns ≡ true → fields ns r ≡ fields ns s → r ≡ s
unfolding fields
fields_injective [] r s d e = refl
fields_injective (n ∷ ns) (none, r) (none, s) d e =
    rw (fields_injective ns r s (and-eq-true (not (any (text_eq n) ns)) (distinct ns) d).1 e)
fields_injective (n ∷ ns) (some v, r) (some w, s) d e =
    let (same, rest) : (v ≡ w) × (fields ns r ≡ fields ns s) = cons-injective e in
    rw (
      same,
      fields_injective ns r s (and-eq-true (not (any (text_eq n) ns)) (distinct ns) d).1 rest,
    )
fields_injective (n ∷ ns) (none, r) (some w, s) d e =
    absurd (lopsided n ns r w (fields ns s) (fresh d) e)
  where
    fresh : (not (any (text_eq n) ns) && distinct ns) ≡ true → any (text_eq n) ns ≡ false
    fresh h = ground arith
fields_injective (n ∷ ns) (some v, r) (none, s) d e =
    absurd (lopsided n ns s v (fields ns r) (fresh d) (sym e))
  where
    fresh : (not (any (text_eq n) ns) && distinct ns) ≡ true → any (text_eq n) ns ≡ false
    fresh h = ground arith

abbrev log_names : List Text
log_names =
    text "q"
    ∷ text "level"
    ∷ text "service"
    ∷ text "provider"
    ∷ text "model"
    ∷ text "request_id"
    ∷ text "trace_id"
    ∷ text "limit"
    ∷ []

abbrev log_row : LogFilters → Row log_names
log_row f = (
  map words f.q,
  (
    map words f.level,
    (
      map words f.service,
      (
        map words f.provider,
        (
          map words f.model,
          (map words f.request_id, (map words f.trace_id, (map number f.limit, tt))),
        ),
      ),
    ),
  ),
)

text_then :
    (n : Text) (ns : List Text) (o : Option Text) (r : Row ns) (fs : Dict Scalar)
    → fs ≡ fields ns r
    → text_field n o ++ fs ≡ fields (n ∷ ns) (map words o, r)
unfolding fields text_field
text_then n ns none r fs h = h
text_then n ns (some v) r fs h = ap (λ gs. (n, words v) ∷ gs) h

number_last : (n : Text) (o : Option ℕ) → number_field n o ≡ fields (n ∷ []) (map number o, tt)
unfolding fields number_field
number_last n none = refl
number_last n (some v) = refl

log_object-fields : (f : LogFilters) → log_object f ≡ fields log_names (log_row f)
unfolding log_object
log_object-fields f = text_then (text "q") _ f.q _ _ (
    text_then (text "level") _ f.level _ _ (
      text_then (text "service") _ f.service _ _ (
        text_then (text "provider") _ f.provider _ _ (
          text_then (text "model") _ f.model _ _ (
            text_then (text "request_id") _ f.request_id _ _ (
              text_then (text "trace_id") _ f.trace_id _ _
                (number_last (text "limit") f.limit)))))))

abbrev trace_names : List Text
trace_names = text "model_id" ∷ text "status" ∷ text "since" ∷ text "limit" ∷ []

abbrev trace_row : TraceQuery → Row trace_names
trace_row q =
    (map words q.model_id, (map words q.status, (map words q.since, (map number q.limit, tt))))

trace_object-fields : (q : TraceQuery) → trace_object q ≡ fields trace_names (trace_row q)
unfolding trace_object
trace_object-fields q = text_then (text "model_id") _ q.model_id _ _ (
    text_then (text "status") _ q.status _ _
      (text_then (text "since") _ q.since _ _ (number_last (text "limit") q.limit)))

abbrev unwords : Option Scalar → Option Text
unwords (some (words s)) = some s
unwords o = none

unwords-map : (o : Option Text) → unwords (map words o) ≡ o
unwords-map none = refl
unwords-map (some s) = refl

words_injective : (o p : Option Text) → map words o ≡ map words p → o ≡ p
words_injective o p e = sym (unwords-map o) ∙ (ap unwords e ∙ unwords-map p)

object_of : Key → Dict Scalar
object_of (part ∷ object fs ∷ k) = fs
object_of k = []

flag_of : Key → Bool
flag_of (part ∷ object fs ∷ flag b ∷ []) = b
flag_of k = false

-- Queries of logs with the same key have the same filters and poll alike.
pub log_keys_apart :
    (f g : LogFilters) (l m : Bool)
    → key (Query.logs f l) ≡ key (Query.logs g m)
    → (f.q ≡ g.q) × (f.level ≡ g.level) × (f.service ≡ g.service) × (l ≡ m)
unfolding key object_of flag_of text_eq
log_keys_apart f g l m e =
    let rows : log_row f ≡ log_row g =
      fields_injective log_names (log_row f) (log_row g) refl
        (sym (log_object-fields f) ∙ (ap object_of e ∙ log_object-fields g)) in
    (
      words_injective f.q g.q (ap (λ r. r.0) rows),
      words_injective f.level g.level (ap (λ r. r.1.0) rows),
      words_injective f.service g.service (ap (λ r. r.1.1.0) rows),
      ap flag_of e,
    )

-- Queries of traces with the same key have the same filters.
pub trace_keys_apart :
    (q r : TraceQuery)
    → key (Query.traces (some q)) ≡ key (Query.traces (some r))
    → (q.model_id ≡ r.model_id) × (q.status ≡ r.status) × (q.since ≡ r.since)
unfolding key object_of text_eq
trace_keys_apart q r e =
    let rows : trace_row q ≡ trace_row r =
      fields_injective trace_names (trace_row q) (trace_row r) refl
        (sym (trace_object-fields q) ∙ (ap object_of e ∙ trace_object-fields r)) in
    (
      words_injective q.model_id r.model_id (ap (λ t. t.0) rows),
      words_injective q.status r.status (ap (λ t. t.1.0) rows),
      words_injective q.since r.since (ap (λ t. t.1.1.0) rows),
    )
