-- ===== src/Api/Fetch.antt =====
-- `apiFetch` and `unwrapList` of frontend/lib/api.ts, and the retry policy of
-- frontend/components/providers.tsx. One request is a state machine: the browser and the timer
-- send it events, in any order.
use llmplane.Common.{
  ℕ, Bool, true, false, not, ◌&&◌, ◌||◌, List, [], ◌∷◌, ◌++◌, Option, none, some, Text, text,
  is_empty, if◌then◌else◌, ltb, leb, ◌==◌, Dict, insert, remove, spread,
}
use llmplane.Api.Url.{or_empty}
use llmplane.Api.Json.{Json, null}
use llmplane.Api.Message.{message_from_body}

-- The options that `apiFetch` reads. `signal` is the caller's, with whether it has been aborted.
pub record Options : Type 0 where
  pub timeout_ms : Option ℕ
  pub signal : Option Bool
  pub is_form_data : Bool
  pub headers : Dict Text

unfoldable pub default_timeout_ms : ℕ
default_timeout_ms = 30000

-- `timeoutMs = DEFAULT_TIMEOUT_MS`.
unfoldable pub timeout_of : Options → ℕ
unfolding default_timeout_ms
timeout_of o = elim o.timeout_ms [ none ↦ default_timeout_ms | some ms ↦ ms ]

abbrev pub content_type : Text
content_type = text "Content-Type"

abbrev pub authorization : Text
authorization = text "Authorization"

abbrev pub bearer : Text → Text
bearer key = text "Bearer " ++ key

unfoldable pub content_headers : Bool → Dict Text → Dict Text
unfolding spread remove
content_headers is_form given =
    if is_form
    then remove content_type (spread [] given)
    else spread ((content_type, text "application/json") ∷ []) given

-- The headers that are sent; a key that is missing or empty adds none.
unfoldable pub request_headers : Option Text → Options → Dict Text
unfolding content_headers insert
request_headers api_key o =
    let headers = content_headers o.is_form_data o.headers in
    if is_empty (or_empty api_key)
    then headers
    else insert authorization (bearer (or_empty api_key)) headers

-- How a call ends. `value none` is `undefined`; an error that is not an `ApiError` is thrown on as
-- it came.
pub data Result : Type 0 where
  value : Option Json → Result
  api_error : ℕ → Text → Option Json → Result
  thrown : Text → Result

pub data Phase : Type 0 where
  connecting : Phase
  reading : ℕ → Text → Phase
  done : Result → Phase

-- `timer` is whether the timeout is still armed, `aborted` the state of the inner controller,
-- `caller` that of the caller's signal, if there is one.
pub record Request : Type 0 where
  pub path : Text
  pub timer : Bool
  pub aborted : Bool
  pub caller : Option Bool
  pub phase : Phase

abbrev pub is_aborted : Option Bool → Bool
is_aborted none = false
is_aborted (some b) = b

unfoldable pub start : Text → Options → Request
unfolding timeout_of
start path o = record {
  path = path;
  timer = ltb 0 (timeout_of o);
  aborted = is_aborted o.signal;
  caller = o.signal;
  phase = connecting;
}

-- What the request can see happen: the timeout, an abort by the caller, the response's head, a
-- rejection of `fetch` or of the reading of the body, and the whole body.
pub data Event : Type 0 where
  timer_fires : Event
  caller_aborts : Event
  responds : ℕ → Text → Event
  rejects : Text → Event
  body_arrives : Text → Event

unfoldable pub is_ok : ℕ → Bool
is_ok status = leb 200 status && leb status 299

-- A body that cannot be read or is not JSON counts as null.
abbrev pub json_or_null : Option Json → Json
json_or_null none = null
json_or_null (some v) = v

-- `throw new ApiError(…)` on a response that is not ok.
unfoldable pub failed_response : ℕ → Text → Option Json → Result
failed_response status status_text body =
    api_error status (message_from_body status status_text (json_or_null body))
      (some (json_or_null body))

unfoldable pub timed_out_message : Text → Text
timed_out_message path = text "Request to " ++ path ++ text " timed out."

-- The `catch` around `fetch`.
unfoldable pub on_reject : Request → Text → Result
unfolding timed_out_message
on_reject r err =
    if r.aborted && not (is_aborted r.caller)
    then api_error 408 (timed_out_message r.path) none
    else thrown err

module _ (parse : Text → Option Json) where
  -- The end of `apiFetch`, for an ok response.
  unfoldable pub ok_response : ℕ → Text → Result
  ok_response status body =
      if status == 204 || status == 205
      then value none
      else if is_empty body
      then value none
      else elim (parse body) [ none ↦ thrown (text "SyntaxError") | some v ↦ value (some v) ]

  unfoldable pub finish : ℕ → Text → Text → Result
  unfolding is_ok failed_response ok_response
  finish status status_text body =
      if is_ok status
      then ok_response status body
      else failed_response status status_text (parse body)

  -- `finally { if (timer) clearTimeout(timer); }`, once `fetch` has settled.
  abbrev settle : Request → Phase → Request
  settle r phase = record r { timer = false; phase = phase }

  -- A 204 or 205 returns at once; any other head waits for the body.
  unfoldable pub on_head : ℕ → Text → Phase
  on_head status status_text =
      if status == 204 || status == 205 then done (value none) else reading status status_text

  -- An event in a phase that does not wait for it changes nothing. An aborted `fetch` answers with
  -- a rejection, never with a response.
  unfoldable pub step_in : Phase → Request → Event → Request
  unfolding finish on_reject on_head
  step_in (done result) r e = r
  step_in phase r timer_fires = if r.timer then record r { timer = false; aborted = true } else r
  step_in phase r caller_aborts = elim r.caller [
    | none ↦ r
    | some b ↦ record r { caller = some true; aborted = true }
  ]
  step_in connecting r (responds status status_text) =
      if r.aborted then r else settle r (on_head status status_text)
  step_in connecting r (rejects err) = settle r (done (on_reject r err))
  step_in (reading status status_text) r (rejects err) =
      settle r (done (if is_ok status then thrown err else failed_response status status_text none))
  step_in (reading status status_text) r (body_arrives body) =
      if r.aborted then r else settle r (done (finish status status_text body))
  step_in phase r e = r

  unfoldable pub step : Request → Event → Request
  unfolding step_in
  step r e = step_in r.phase r e

  unfoldable pub run : Request → List Event → Request
  run r [] = r
  run r (e ∷ es) = run (step r e) es

-- `unwrapList`: a bare array, a page that holds one, or anything else.
pub data Listing {ℓ} (A : Type ℓ) : Type ℓ where
  bare : List A → Listing A
  page : Option (List A) → Listing A
  missing : Listing A

unfoldable pub unwrap_list {ℓ} : {A : Type ℓ} → Listing A → List A
unwrap_list (bare xs) = xs
unwrap_list (page (some xs)) = xs
unwrap_list (page none) = []
unwrap_list missing = []

-- The query client's `retry`: `status` is that of an `ApiError`, or none on another error.
unfoldable pub retry : ℕ → Option ℕ → Bool
retry failure_count (some status) =
    if leb 400 status && ltb status 500 then false else ltb failure_count 1
retry failure_count none = ltb failure_count 1
