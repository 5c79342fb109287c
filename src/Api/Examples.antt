-- ===== src/Api/Examples.antt =====
-- The theorems of this component at concrete inputs.
use llmplane.Common.{
  ℕ, ◌≡◌, ◌≢◌, ◌<◌, refl, true, [], ◌∷◌, Option, none, Text, text, text_methods, any, arith,
}
use llmplane.Api.Json.{Json, arr, obj, cons, nil, field, end}
use llmplane.Api.Message.{message_from_body}
use llmplane.Api.MessageLaws.{message_from_body-ne}
use llmplane.Api.Fetch.{
  Options, timer_fires, rejects, responds, api_error, done, start, run, timed_out_message,
  timeout_of, is_ok, step, body_arrives, finish,
}
use llmplane.Api.FetchLaws.{IsReading, is_timer, run-timed_out, run-timeout, run-body_untimed}

abbrev path : Text
path = text "/providers"

abbrev no_json : Text → Option Json
no_json s = none

abbrev request_timeout : ℕ
request_timeout = 408

abbrev plain_options : Options
plain_options = record { timeout_ms = none; signal = none; is_form_data = true; headers = [] }

-- A detail with an item that has no message.
abbrev blank_detail : Json
blank_detail = obj (field (text "detail") (arr (cons (obj end) nil)) end)

message_from_body-ne_example : message_from_body 422 [] blank_detail ≢ []
message_from_body-ne_example = message_from_body-ne 422 [] blank_detail

run-timed_out_example :
    (request_timeout ≡ 408)
    × (timed_out_message path ≡ timed_out_message path)
    × (any is_timer (timer_fires ∷ rejects [] ∷ []) ≡ true)
    × (0 < timeout_of plain_options)
unfolding start run timeout_of text_methods
run-timed_out_example =
    run-timed_out no_json path plain_options (timer_fires ∷ rejects [] ∷ []) 408
      (timed_out_message path) (run-timeout no_json path plain_options [] [] (omega arith) refl)

run-timeout_example :
    (run no_json (start path plain_options) (timer_fires ∷ rejects [] ∷ [])).phase
    ≡ done (api_error 408 (timed_out_message path) none)
unfolding timeout_of
run-timeout_example = run-timeout no_json path plain_options [] [] (omega arith) refl

run-body_untimed_example :
    let r = run no_json (start path plain_options) (responds 200 [] ∷ timer_fires ∷ []) in
    IsReading 200 [] r
    × ((step no_json r (body_arrives [])).phase ≡ done (finish no_json 200 [] []))
unfolding is_ok
run-body_untimed_example =
    run-body_untimed no_json path plain_options 200 [] [] (timer_fires ∷ []) refl refl
      (λ e. omega (arith, e)) (λ e. omega (arith, e)) (refl, tt)
