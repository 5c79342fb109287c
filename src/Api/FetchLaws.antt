-- ===== src/Api/FetchLaws.antt =====
-- What `apiFetch` promises over every order of events.
use llmplane.Common.{
  ℕ, ◌≤◌, ◌<◌, ◌≡◌, refl, ap, ◌∙◌, ◌≢◌, ◌↔◌, ◌⊎◌, Bool, true, false, List, [], ◌∷◌, Option, ◌||◌,
  none, some, arith, Text, text_eq, text_eq_refl, text_methods, All, any, lookup, lookup-insert,
  lookup-remove, Dict,
}
use llmplane.Api.Json.{Json}
use llmplane.Api.Fetch.{
  Options, timeout_of, content_type, authorization, bearer, content_headers, request_headers,
  Result, value, api_error, thrown, Phase, connecting, reading, done, Request, is_aborted, start,
  Event, timer_fires, caller_aborts, responds, rejects, body_arrives, is_ok, finish,
  timed_out_message, on_reject, step_in, step, run, retry,
}

module _ (parse : Text → Option Json) where
  step-done : (r : Request) (e : Event) (res : Result) → r.phase ≡ done res → step parse r e ≡ r
  unfolding step
  step-done r e res h = rw h

  -- A settled request stays as it is, whatever happens later: it ends once.
  run-done :
      (r : Request) (es : List Event) (res : Result) → r.phase ≡ done res → run parse r es ≡ r
  unfolding run
  run-done r [] res h = refl
  run-done r (e ∷ es) res h = rw (step-done r e res h) (run-done r es res h)

-- What a phase that is an error without a body says of the timeout.
abbrev Blames : Text → ℕ → Bool → Phase → Type 0
Blames path ms fired (done (api_error s m none)) =
    (s ≡ 408) × (m ≡ timed_out_message path) × (fired ≡ true) × (0 < ms)
Blames path ms fired _ = Unit

-- What a run knows of its timeout: `fired` is whether the timer went off, `ms` its length.
record Timed (path : Text) (ms : ℕ) (fired : Bool) (r : Request) : Type 0 where
  same_path : r.path ≡ path
  armed : r.timer ≡ true → 0 < ms
  cause : r.aborted ≡ true → is_aborted r.caller ≡ false → (fired ≡ true) × (0 < ms)
  blame : Blames path ms fired r.phase

or-false : (b : Bool) → (b || false) ≡ b
or-false true = refl
or-false false = refl

or_assoc : (a b c : Bool) → ((a || b) || c) ≡ (a || (b || c))
or_assoc true b c = refl
or_assoc false b c = refl

abbrev pub is_timer : Event → Bool
is_timer timer_fires = true
is_timer _ = false

start-Timed : (path : Text) (o : Options) → Timed path (timeout_of o) false (start path o)
unfolding start
start-Timed path o = ground arith

on_reject-Blames :
    (path : Text) (ms : ℕ) (fired : Bool) (r : Request) (err : Text)
    → Timed path ms fired r
    → Blames path ms fired (done (on_reject r err))
unfolding on_reject
on_reject-Blames path ms fired r err h = ground arith

finish-Blames :
    (parse : Text → Option Json) (path : Text) (ms : ℕ) (fired : Bool) (status : ℕ) (st body : Text)
    → Blames path ms fired (done (finish parse status st body))
unfolding finish
finish-Blames parse path ms fired status st body = ground arith

module _ (parse : Text → Option Json) (path : Text) (ms : ℕ) where
  step_in-Timed :
      (ph : Phase) (r : Request) (e : Event) (fired : Bool)
      → r.phase ≡ ph
      → Timed path ms fired r
      → Timed path ms (fired || is_timer e) (step_in parse ph r e)
  unfolding step_in
  step_in-Timed (done (value v)) r e fired q h = ground arith
  step_in-Timed (done (thrown err)) r e fired q h = ground arith
  step_in-Timed (done (api_error s m none)) r e fired q h = ground arith
  step_in-Timed (done (api_error s m (some v))) r e fired q h = ground arith
  step_in-Timed connecting r timer_fires fired q h = ground arith
  step_in-Timed connecting r caller_aborts fired q h = ground arith
  step_in-Timed connecting r (responds status st) fired q h = ground arith
  step_in-Timed connecting r (rejects err) fired q h =
      ground (arith, on_reject-Blames path ms fired r err h)
  step_in-Timed connecting r (body_arrives body) fired q h = ground arith
  step_in-Timed (reading s t) r timer_fires fired q h = ground arith
  step_in-Timed (reading s t) r caller_aborts fired q h = ground arith
  step_in-Timed (reading s t) r (responds status st) fired q h = ground arith
  step_in-Timed (reading s t) r (rejects err) fired q h = ground arith
  step_in-Timed (reading s t) r (body_arrives body) fired q h =
      ground (arith, finish-Blames parse path ms fired s t body)

  step-Timed :
      (r : Request) (e : Event) (fired : Bool)
      → Timed path ms fired r
      → Timed path ms (fired || is_timer e) (step parse r e)
  unfolding step
  step-Timed r e fired h = step_in-Timed r.phase r e fired refl h

  run-Timed :
      (r : Request) (es : List Event) (fired : Bool)
      → Timed path ms fired r
      → Timed path ms (fired || any is_timer es) (run parse r es)
  unfolding run
  run-Timed r [] fired h = rw (or-false fired) h
  run-Timed r (e ∷ es) fired h =
      rw (← or_assoc fired (is_timer e) (any is_timer es))
        (run-Timed (step parse r e) es (fired || is_timer e) (step-Timed r e fired h))

-- An error that the client makes up itself, one without a response body, is always the timeout: the
-- status is 408, the message names the path, the timer went off during the run, and the timeout
-- was not disabled. This holds for every order of events and every way to parse bodies.
pub run-timed_out :
    (parse : Text → Option Json) (path : Text) (o : Options) (es : List Event) (s : ℕ) (m : Text)
    → (run parse (start path o) es).phase ≡ done (api_error s m none)
    → (s ≡ 408) × (m ≡ timed_out_message path) × (any is_timer es ≡ true) × (0 < timeout_of o)
run-timed_out parse path o es s m e =
    let h = run-Timed parse path (timeout_of o) (start path o) es false (start-Timed path o) in
    rw e at h.blame

timeout_steps :
    (parse : Text → Option Json) (path : Text) (o : Options) (err : Text)
    → 0 < timeout_of o
    → is_aborted o.signal ≡ false
    → (step parse (step parse (start path o) timer_fires) (rejects err)).phase
      ≡ done (api_error 408 (timed_out_message path) none)
unfolding step start on_reject
timeout_steps parse path o err h k = ground arith

-- Conversely a request whose timer goes off before any answer ends in that error once the browser
-- rejects, whatever the browser says and whatever happens later, if the timeout is not disabled
-- and the caller has not aborted.
pub run-timeout :
    (parse : Text → Option Json) (path : Text) (o : Options) (err : Text) (es : List Event)
    → 0 < timeout_of o
    → is_aborted o.signal ≡ false
    → (run parse (start path o) (timer_fires ∷ rejects err ∷ es)).phase
      ≡ done (api_error 408 (timed_out_message path) none)
unfolding run
run-timeout parse path o err es h k =
    let p = timeout_steps parse path o err h k in
    let r = step parse (step parse (start path o) timer_fires) (rejects err) in
    rw (run-done parse r es (api_error 408 (timed_out_message path) none) p) p

-- A request that waits for a body, with neither a timer nor an abort.
abbrev pub IsReading : ℕ → Text → Request → Type 0
IsReading status st r = (r.phase ≡ reading status st) × (r.timer ≡ false) × (r.aborted ≡ false)

head_step :
    (parse : Text → Option Json) (path : Text) (o : Options) (status : ℕ) (st : Text)
    → is_aborted o.signal ≡ false
    → status ≢ 204
    → status ≢ 205
    → IsReading status st (step parse (start path o) (responds status st))
unfolding step start
head_step parse path o status st a n m = ground arith

timer_step :
    (parse : Text → Option Json) (r : Request) (status : ℕ) (st : Text)
    → r.phase ≡ reading status st
    → r.timer ≡ false
    → step parse r timer_fires ≡ r
unfolding step
timer_step parse r status st p t = rw (p, t)

timers_idle :
    (parse : Text → Option Json) (r : Request) (status : ℕ) (st : Text) (es : List Event)
    → IsReading status st r
    → All (λ e. e ≡ timer_fires) es
    → IsReading status st (run parse r es)
unfolding run
timers_idle parse r status st [] h none_left = h
timers_idle parse r status st (e ∷ es) h (q, rest) =
    let same : step parse r e ≡ r = ap (step parse r) q ∙ timer_step parse r status st h.0 h.1 in
    rw (same, run) (timers_idle parse r status st es h rest)

body_step :
    (parse : Text → Option Json) (r : Request) (status : ℕ) (st body : Text)
    → IsReading status st r
    → (step parse r (body_arrives body)).phase ≡ done (finish parse status st body)
unfolding step
body_step parse r status st body (p, t, a) = rw (p, a)

-- The timeout covers the head of the response only: once an ok head has arrived that has a body,
-- if the caller has not aborted, the timer is cleared, and however much time passes the request
-- is neither aborted nor settled while its body has not ended; a body that arrives then still is the result.
pub run-body_untimed :
    (parse : Text → Option Json) (path : Text) (o : Options) (status : ℕ) (st body : Text)
    (es : List Event)
    → is_aborted o.signal ≡ false
    → is_ok status ≡ true
    → status ≢ 204
    → status ≢ 205
    → All (λ e. e ≡ timer_fires) es
    → let r = run parse (start path o) (responds status st ∷ es) in
      IsReading status st r
      × ((step parse r (body_arrives body)).phase ≡ done (finish parse status st body))
unfolding run
run-body_untimed parse path o status st body es a k n m h =
    let r = run parse (start path o) (responds status st ∷ es) in
    let idle = timers_idle parse _ status st es (head_step parse path o status st a n m) h in
    (idle, body_step parse r status st body idle)

-- The `ApiError` status that the query client's retry policy reads.
abbrev pub error_status : Result → Option ℕ
error_status (api_error s m b) = some s
error_status _ = none

-- A failed response is retried only once, and only if its status is not a client error, whatever
-- its body; and a timed-out request, which is reported as 408, is never retried.
retry-finish :
    (parse : Text → Option Json) (status : ℕ) (st body : Text) (n : ℕ) (r : Request) (err : Text)
    → is_ok status ≡ false
    → ((retry n (error_status (finish parse status st body)) ≡ true)
        ↔ ((n ≡ 0) × ((status < 400) ⊎ (500 ≤ status))))
      × (r.aborted ≡ true
          → is_aborted r.caller ≡ false
          → retry n (error_status (on_reject r err)) ≡ false)
unfolding finish retry on_reject
retry-finish parse status st body n r err h = ground arith

apart : text_eq authorization content_type ≡ false
unfolding text_methods
apart = refl

form_content_type : (given : Dict Text) → lookup content_type (content_headers true given) ≡ none
unfolding content_headers
form_content_type given = rw lookup-remove (rw text_eq_refl refl)

-- With a key the request carries it as a bearer token, whatever headers the caller gives; and with a
-- form the browser chooses the content type, since none is sent.
request_headers-form :
    (key : Text) (o : Options)
    → key ≢ []
    → (lookup authorization (request_headers (some key) o) ≡ some (bearer key))
      × (o.is_form_data ≡ true → lookup content_type (request_headers (some key) o) ≡ none)
unfolding request_headers
request_headers-form [] o h = absurd (h refl)
request_headers-form (c ∷ key) o h = (
  rw (lookup-insert, text_eq_refl) refl,
  λ form. rw lookup-insert (rw (form, apart) (form_content_type o.headers)),
)
