-- ===== src/Auth/Examples.antt =====
-- The theorems of this component at a concrete browser.
use llmplane.Common.{◌≡◌, refl, true, false, List, [], ◌∷◌, none, some, text, text_methods}
use llmplane.Api.Json.{Json, str, obj, field, end}
use llmplane.Api.Fetch.{Options, request_headers, content_headers}
use llmplane.Auth.Storage.{
  Storage, app_gate, login_gate, handle_logout, on_exchange, answers, is_ok, field_text,
}
use llmplane.Auth.Login.{Event, type_key, submit_key, on_answer, answer, new_page, run, step}
use llmplane.Auth.LoginLaws.{is_given, is_waiting, run-signed_in, run-storage}
use llmplane.Auth.SessionLaws.{handle_logout-closes, on_exchange-headers}

abbrev empty_storage : Storage
empty_storage = record { api_key = none; session_token = none; user = none }

abbrev signed_in : Storage
signed_in = record { api_key = some (text "k"); session_token = some (text "t"); user = none }

abbrev plain_options : Options
plain_options = record { timeout_ms = none; signal = none; is_form_data = false; headers = [] }

abbrev accepted : List Event
accepted = type_key (text " k ") ∷ submit_key ∷ on_answer (answer 200 none) ∷ []

abbrev refused : List Event
refused = type_key (text " k ") ∷ submit_key ∷ on_answer (answer 401 none) ∷ []

run-signed_in_example :
    (is_given (run (new_page empty_storage) accepted).route ≡ true
      → app_gate (run (new_page empty_storage) accepted).storage ≡ none)
    × (is_given (run (new_page empty_storage) accepted).minted_key ≡ true
        → app_gate (run (new_page empty_storage) accepted).storage ≡ none)
    × ((run (new_page empty_storage) accepted).busy
        ≡ is_waiting (run (new_page empty_storage) accepted).pending)
run-signed_in_example = run-signed_in empty_storage accepted

-- The run does leave for the dashboard, with the key stored.
left : (run (new_page empty_storage) accepted).route ≡ some (text "/dashboard")
unfolding run new_page text_methods step
left = refl

run-storage_example :
    (run (new_page empty_storage) refused).storage ≡ (new_page empty_storage).storage
unfolding is_ok
run-storage_example = run-storage (new_page empty_storage) refused refl

handle_logout-closes_example :
    let out = (handle_logout false signed_in).0 in
    (app_gate out ≡ some (handle_logout false signed_in).1)
    × (login_gate out ≡ none)
    × (request_headers out.api_key plain_options
        ≡ content_headers plain_options.is_form_data plain_options.headers)
handle_logout-closes_example = handle_logout-closes false signed_in plain_options

abbrev token_reply : Json
token_reply = obj (field (text "access_token") (str (text "t")) end)

on_exchange-headers_example :
    let after = (on_exchange (answers 200 token_reply) empty_storage).0 in
    (app_gate after ≡ none)
    × (request_headers after.api_key plain_options
        ≡ request_headers empty_storage.api_key plain_options)
unfolding is_ok field_text text_methods
on_exchange-headers_example =
    on_exchange-headers 200 token_reply empty_storage plain_options (text "t") refl refl refl
