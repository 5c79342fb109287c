-- ===== src/Hooks/FilterLaws.antt =====
-- What a server that reads the query strings of Filters as `application/x-www-form-urlencoded` has it
-- gets to see. `encode` and `decode` are that format's coding of a value.
use llmplane.Common.{
  ℕ, Bool-cases, inl, inr, ◌==◌, ◌≡◌, refl, ap, ◌∙◌, Bool, true, false, ◌||◌, [], ◌∷◌, ◌++◌,
  append_assoc, append-nil, Option, none, some, Text, text, join, is_empty, if◌then◌else◌, Dict,
  All, arith,
}
use llmplane.Hooks.Filters.{
  TraceQuery, EvaluationQuery, LogFilters, text_param, number_param, evaluation_params,
  trace_params, log_params, entry_text, query_string,
}

-- Neither `&` nor `=` is part of the text.
unfoldable pub has_sign : Text → Bool
has_sign [] = false
has_sign (c ∷ s) = c == b'&' || c == b'=' || has_sign s

abbrev pub IsPlain : Text → Type 0
IsPlain s = has_sign s ≡ false

both-eq-false : (a b r : Bool) → (a || b || r) ≡ false → (a ≡ false) × (b ≡ false) × (r ≡ false)
both-eq-false a b r h = ground arith

-- How the format is read: a name up to `=`, then a value up to `&`. The first argument is whether the
-- value is being read, and the next two are what has been read of the name and of the value.
module _ (decode : Text → Text) where
  unfoldable pub read_entries : Bool → Text → Text → Text → Dict Text
  read_entries in_value name value [] = (name, decode value) ∷ []
  read_entries true name value (c ∷ s) =
      let next = read_entries false [] [] s in
      let more = read_entries true name (value ++ c ∷ []) s in
      if c == b'&' then (name, decode value) ∷ next else more
  read_entries false name value (c ∷ s) =
      let next = read_entries true name [] s in
      let more = read_entries false (name ++ c ∷ []) value s in if c == b'=' then next else more

  unfoldable pub read_query : Text → Dict Text
  unfolding read_entries
  read_query [] = []
  read_query (c ∷ s) = read_entries false [] [] (c ∷ s)

  read_entries-name :
      (name read value s : Text)
      → IsPlain name
      → read_entries false read value (name ++ (text "=" ++ s))
        ≡ read_entries true (read ++ name) [] s
  unfolding read_entries has_sign
  read_entries-name [] read value s h = rw (append-nil read)
  read_entries-name (c ∷ name) read value s h =
      let (amp, eq, rest) = both-eq-false (c == b'&') (c == b'=') (has_sign name) h in
      rw eq (
        read_entries-name name (read ++ c ∷ []) value s rest
        ∙ ap (λ n. read_entries true n [] s) (append_assoc read (c ∷ []) name))

  read_entries-value :
      (name value read : Text)
      → IsPlain value
      → read_entries true name read value ≡ (name, decode (read ++ value)) ∷ []
  unfolding read_entries has_sign
  read_entries-value name [] read h = rw (append-nil read)
  read_entries-value name (c ∷ value) read h =
      let (amp, eq, rest) = both-eq-false (c == b'&') (c == b'=') (has_sign value) h in
      rw amp (
        read_entries-value name value (read ++ c ∷ []) rest
        ∙ ap (λ v. (name, decode v) ∷ []) (append_assoc read (c ∷ []) value))

  read_entries-value_and :
      (name value read s : Text)
      → IsPlain value
      → read_entries true name read (value ++ (text "&" ++ s))
        ≡ (name, decode (read ++ value)) ∷ read_entries false [] [] s
  unfolding read_entries has_sign
  read_entries-value_and name [] read s h = rw (append-nil read)
  read_entries-value_and name (c ∷ value) read s h =
      let (amp, eq, rest) = both-eq-false (c == b'&') (c == b'=') (has_sign value) h in
      rw amp (
        read_entries-value_and name value (read ++ c ∷ []) s rest
        ∙ ap (λ v. (name, decode v) ∷ read_entries false [] [] s)
            (append_assoc read (c ∷ []) value))

-- `URLSearchParams` encodes `&` and `=`, and what it encodes is read back as it was.
pub record IsCoding (encode decode : Text → Text) : Type 0 where
  pub plain : (s : Text) → IsPlain (encode s)
  pub back : (s : Text) → decode (encode s) ≡ s

abbrev IsNamed : Text × Text → Type 0
IsNamed (name, value) = (is_empty name ≡ false) × IsPlain name

module _ (encode decode : Text → Text) (coding : IsCoding encode decode) where
  read_entries-entry :
      (name value : Text)
      → IsPlain name
      → read_entries decode false [] [] (entry_text encode (name, value)) ≡ (name, value) ∷ []
  unfolding entry_text
  read_entries-entry name value h =
      read_entries-name decode name [] [] (encode value) h
      ∙ (read_entries-value decode name (encode value) [] (coding.plain value)
          ∙ ap (λ v. (name, v) ∷ []) (coding.back value))

  read_entries-query_string :
      (p : Text × Text) (ps : Dict Text)
      → All IsNamed (p ∷ ps)
      → read_entries decode false [] [] (query_string encode (p ∷ ps)) ≡ p ∷ ps
  unfolding query_string join entry_text
  read_entries-query_string (name, value) [] h = read_entries-entry name value h.0.1
  read_entries-query_string (name, value) (q ∷ ps) h =
      ap (read_entries decode false [] []) (
        append_assoc (name ++ (text "=" ++ encode value)) (text "&") (query_string encode (q ∷ ps))
        ∙ append_assoc name (text "=" ++ encode value) (text "&" ++ query_string encode (q ∷ ps)))
      ∙ (read_entries-name decode name [] []
            (encode value ++ (text "&" ++ query_string encode (q ∷ ps))) h.0.1
          ∙ (read_entries-value_and decode name (encode value) [] (query_string encode (q ∷ ps))
                (coding.plain value)
              ∙ (ap
                    (λ v.
                      (name, v) ∷ read_entries decode false [] [] (query_string encode (q ∷ ps)))
                    (coding.back value)
                  ∙ ap (λ r. (name, value) ∷ r) (read_entries-query_string q ps h.1))))

  query_string-is_empty :
      (p : Text × Text) (ps : Dict Text)
      → All IsNamed (p ∷ ps)
      → is_empty (query_string encode (p ∷ ps)) ≡ false
  unfolding query_string join entry_text
  query_string-is_empty ([], value) ps h = cc
  query_string-is_empty (c ∷ name, value) [] h = refl
  query_string-is_empty (c ∷ name, value) (q ∷ ps) h = refl

  read_query-cons :
      (s : Text) → is_empty s ≡ false → read_query decode s ≡ read_entries decode false [] [] s
  unfolding read_query
  read_query-cons [] h = cc
  read_query-cons (c ∷ s) h = refl

  -- What is set is what is read.
  read_query-query_string :
      (ps : Dict Text) → All IsNamed ps → read_query decode (query_string encode ps) ≡ ps
  unfolding read_query query_string join
  read_query-query_string [] h = refl
  read_query-query_string (p ∷ ps) h =
      read_query-cons (query_string encode (p ∷ ps)) (query_string-is_empty p ps h)
      ∙ read_entries-query_string p ps h

IsNamed-text :
    (name : Text) (o : Option Text) (ps : Dict Text)
    → IsNamed (name, [])
    → All IsNamed ps
    → All IsNamed (text_param name o ++ ps)
unfolding text_param
IsNamed-text name none ps h k = k
IsNamed-text name (some []) ps h k = k
IsNamed-text name (some (c ∷ value)) ps h k = (h, k)

IsNamed-text_last :
    (name : Text) (o : Option Text) → IsNamed (name, []) → All IsNamed (text_param name o)
unfolding text_param
IsNamed-text_last name none h = tt
IsNamed-text_last name (some []) h = tt
IsNamed-text_last name (some (c ∷ value)) h = (h, tt)

IsNamed-number :
    (show : ℕ → Text) (name : Text) (o : Option ℕ)
    → IsNamed (name, [])
    → All IsNamed (number_param show name o)
unfolding number_param
IsNamed-number show name none h = tt
IsNamed-number show name (some n) h = elim (Bool-cases (n == 0)) [
  | inl e ↦ rw e tt
  | inr e ↦ rw e (h, tt)
]

module _ (encode decode : Text → Text) (show : ℕ → Text) (coding : IsCoding encode decode) where
  -- What a hook sets is what is read, entry by entry.
  pub read_query-params :
      (q : TraceQuery) (e : EvaluationQuery) (f : LogFilters)
      → (read_query decode (query_string encode (trace_params show q)) ≡ trace_params show q)
        × (read_query decode (query_string encode (evaluation_params e)) ≡ evaluation_params e)
        × (read_query decode (query_string encode (log_params show f)) ≡ log_params show f)
  unfolding trace_params evaluation_params log_params has_sign
  read_query-params q e f = (
    read_query-query_string encode decode coding (trace_params show q) (
        IsNamed-text (text "model_id") q.model_id _ (refl, refl)
          (IsNamed-text (text "status") q.status _ (refl, refl)
            (IsNamed-text (text "since") q.since _ (refl, refl)
              (IsNamed-number show (text "limit") q.limit (refl, refl))))),
    read_query-query_string encode decode coding (evaluation_params e) (
        IsNamed-text (text "benchmark_id") e.benchmark_id _ (refl, refl)
          (IsNamed-text (text "experiment_id") e.experiment_id _ (refl, refl)
            (IsNamed-text_last (text "model") e.model (refl, refl)))),
    read_query-query_string encode decode coding (log_params show f) (
        IsNamed-text (text "q") f.q _ (refl, refl)
          (IsNamed-text (text "level") f.level _ (refl, refl)
            (IsNamed-text (text "service") f.service _ (refl, refl)
              (IsNamed-text (text "provider") f.provider _ (refl, refl)
                (IsNamed-text (text "model") f.model _ (refl, refl)
                  (IsNamed-text (text "request_id") f.request_id _ (refl, refl)
                    (IsNamed-text (text "trace_id") f.trace_id _ (refl, refl)
                      ((refl, refl), tt)))))))),
  )
