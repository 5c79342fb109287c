-- ===== src/Pages/RetryLaws.antt =====
-- What becomes of a page whose query fails: how often it asks, and what it says.
use llmplane.Common.{
  ℕ, suc, ◌≡◌, ◌≢◌, refl, sym, ◌∙◌, ◌⊎◌, Option-cases, Bool, true, false, ◌&&◌, Bool-cases, inl,
  inr, List, [], Option, none, some, Text, text, if◌then◌else◌, leb, ltb, arith,
}
use llmplane.Api.Json.{Json}
use llmplane.Api.Fetch.{
  Result, value, api_error, thrown, retry, is_ok, failed_response, ok_response, finish,
  json_or_null,
}
use llmplane.Api.MessageLaws.{message_from_body-ne}
use llmplane.Widgets.Cards.{error}
use llmplane.Pages.Screens.{QueryResult, loaded, failed, Panel, page, providers_screen}
use llmplane.Pages.ScreenLaws.{rows_on, rows_shown}

-- What `apiFetch` has made of a response, as the page's query has it. `read` takes the JSON as rows. A
-- query whose data are `undefined` counts as failed for TanStack Query; `no_data` is its message.
module _ {A : Type 0} (no_data : Text) (read : Json → List A) where
  unfoldable pub query_result : Result → QueryResult (List A)
  query_result (value none) = failed (error no_data) none
  query_result (value (some v)) = loaded (read v)
  query_result (api_error status message body) = failed (error message) none
  query_result (thrown message) = failed (error message) none

-- `(error as ApiError)?.status`.
unfoldable pub status_of : Result → Option ℕ
status_of (api_error status message body) = some status
status_of r = none

abbrev pub is_failure : Result → Bool
is_failure (value v) = false
is_failure r = true

-- How TanStack Query asks again: `settle` is what a query ends with, of the outcomes of its requests in
-- order and the number of failures so far.
pub record Retryer (again : ℕ → Option ℕ → Bool) : Type 0 where
  pub settle : (ℕ → Result) → ℕ → Result
  pub settle-success : (o : ℕ → Result) (n : ℕ) → is_failure (o n) ≡ false → settle o n ≡ o n
  pub settle-stop : (o : ℕ → Result) (n : ℕ) → again n (status_of (o n)) ≡ false → settle o n ≡ o n
  pub settle-again :
      (o : ℕ → Result) (n : ℕ)
      → is_failure (o n) ≡ true
      → again n (status_of (o n)) ≡ true
      → settle o n ≡ settle o (suc n)

-- What a query should end with, of its first two requests: a client error is final.
abbrev pub of_two : Result → Result → Result
of_two (value v) second = value v
of_two (api_error status message body) second =
    if leb 400 status && ltb status 500 then api_error status message body else second
of_two (thrown message) second = second

-- What the error says that `apiFetch` throws.
abbrev pub error_text : Result → Option Text
error_text (value v) = none
error_text (api_error status message body) = some message
error_text (thrown message) = some message

abbrev pub error_panel : {A : Type 0} → Text → Text → Panel A
error_panel title message = record {
  notice = some (record { title = title; message = message });
  says_empty = false;
  rows = [];
}

value-shown :
    {A : Type 0} (no_data : Text) (read : Json → List A) (v : Json)
    → rows_on (providers_screen (query_result no_data read (value (some v)))) ≡ read v
unfolding query_result
value-shown no_data read v = (rows_shown (read v)).0

nothing-shown :
    {A : Type 0} (no_data : Text) (read : Json → List A)
    → providers_screen (query_result no_data read (value none))
      ≡ page (error_panel (text "Could not load providers") no_data)
unfolding query_result providers_screen
nothing-shown no_data read = refl

error-shown :
    {A : Type 0} (no_data : Text) (read : Json → List A) (r : Result) (m : Text)
    → error_text r ≡ some m
    → providers_screen (query_result no_data read r)
      ≡ page (error_panel (text "Could not load providers") m)
unfolding query_result providers_screen
error-shown no_data read (value v) m h = cc
error-shown no_data read (api_error status n body) m h = cc
error-shown no_data read (thrown n) m h = cc

of_two_cases : (r s : Result) → (of_two r s ≡ r) ⊎ (of_two r s ≡ s)
of_two_cases (value v) s = inl refl
of_two_cases (thrown message) s = inr refl
of_two_cases (api_error status message body) s = ground arith

ok_response-error :
    (parse : Text → Option Json) (status : ℕ) (body message : Text)
    → error_text (ok_response parse status body) ≡ some message
    → message ≡ text "SyntaxError"
unfolding ok_response
ok_response-error parse status body message h = ground (arith, Option-cases (parse body))

-- An error that `apiFetch` throws on a response has a message.
finish-error :
    (parse : Text → Option Json) (status : ℕ) (status_text body message : Text)
    → error_text (finish parse status status_text body) ≡ some message
    → message ≢ []
unfolding finish ok_response failed_response
finish-error parse status status_text body message h = elim (Bool-cases (is_ok status)) [
  | inl ok ↦ λ e. apart (sym (ok_response-error parse status body message (rw ok at h)) ∙ e)
  | inr bad ↦ λ e.
      message_from_body-ne status status_text (json_or_null (parse body)) (same (rw bad at h) ∙ e)
]
  where
    same : {a b : Text} → some a ≡ some b → a ≡ b
    same k = cc

    apart : text "SyntaxError" ≡ [] → ⊥
    apart k = cc

-- The outcomes of the requests, of each response's status, status text and body.
abbrev pub outcome : (Text → Option Json) → (ℕ → ℕ × Text × Text) → ℕ → Result
outcome parse response n = finish parse (response n).0 (response n).1 (response n).2

module _ (R : Retryer retry) where
  retry-one : (status : Option ℕ) → retry 1 status ≡ false
  unfolding retry
  retry-one none = refl
  retry-one (some status) = ground arith

  settle-second : (o : ℕ → Result) → R.settle o 1 ≡ o 1
  settle-second o = R.settle-stop o 1 (retry-one (status_of (o 1)))

  settle-of_two : (o : ℕ → Result) → R.settle o 0 ≡ of_two (o 0) (o 1)
  unfolding retry status_of
  settle-of_two o = by_first (o 0) refl
    where
      by_first : (r : Result) → o 0 ≡ r → R.settle o 0 ≡ of_two r (o 1)
      by_first (value v) e = R.settle-success o 0 (rw e) ∙ e
      by_first (thrown message) e = R.settle-again o 0 (rw e) (rw e) ∙ settle-second o
      by_first (api_error status message body) e =
          elim (Bool-cases (leb 400 status && ltb status 500)) [
            | inl t ↦ rw t (R.settle-stop o 0 (rw (e, t)) ∙ e)
            | inr f ↦ rw f (R.settle-again o 0 (rw e) (rw (e, f)) ∙ settle-second o)
          ]

  module _ {A : Type 0} (parse : Text → Option Json) (no_data : Text) (read : Json → List A)
      (response : ℕ → ℕ × Text × Text) where
    -- If each request is answered by a response, the query of the providers ends with the outcome
    -- of the first, or with that of the second if the first failed but not by a client error; the
    -- page then shows the rows, or no more than the message of the failure, which is not empty, or no
    -- more than the query client's own message if the response was ok but had no body.
    pub page_settles :
        (v : Json) (message : Text)
        → let o : ℕ → Result = outcome parse response in
          let shown = providers_screen (query_result no_data read (R.settle o 0)) in
          (R.settle o 0 ≡ of_two (o 0) (o 1))
          × (of_two (o 0) (o 1) ≡ value (some v) → rows_on shown ≡ read v)
          × (of_two (o 0) (o 1) ≡ value none
              → shown ≡ page (error_panel (text "Could not load providers") no_data))
          × (error_text (of_two (o 0) (o 1)) ≡ some message
              → (shown ≡ page (error_panel (text "Could not load providers") message))
                × (message ≢ []))
    page_settles v message =
        let o : ℕ → Result = outcome parse response in
        (
          settle-of_two o,
          λ h. rw (settle-of_two o, h) (value-shown no_data read v),
          λ h. rw (settle-of_two o, h) (nothing-shown no_data read),
          λ h. (
            rw (settle-of_two o) (error-shown no_data read (of_two (o 0) (o 1)) message h),
            elim (of_two_cases (o 0) (o 1)) [
              | inl e ↦
                  finish-error parse (response 0).0 (response 0).1 (response 0).2 message
                    (rw e at h)
              | inr e ↦
                  finish-error parse (response 1).0 (response 1).1 (response 1).2 message
                    (rw e at h)
            ],
          ),
        )
