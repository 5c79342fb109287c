-- ===== src/Auth/Login.antt =====
-- The component `LoginPage` of frontend/app/page.tsx: its state, the browser's storage, and the
-- requests that verify a key or mint the first one.
use llmplane.Common.{
  ℕ, Bool, true, false, not, ◌&&◌, ◌||◌, List, [], ◌∷◌, ◌++◌, Option, none, some, Text, text, trim,
  is_empty, if◌then◌else◌, ◌==◌,
}
use llmplane.Api.Json.{Json, str, or_else}
use llmplane.Api.Message.{decimal}
use llmplane.Logs.Frames.{member}
use llmplane.Auth.Storage.{Storage, is_ok}

-- The request that the page waits for; a key is the one that was submitted.
pub data Pending : Type 0 where
  nothing minting : Pending
  verifying : Text → Pending

-- `error` is what `setError` was given last: a text of the page, or the backend's `detail`.
pub record LoginPage : Type 0 where
  pub bootstrap_mode : Bool
  pub busy : Bool
  pub error : Option Json
  pub key_field : Text
  pub token_field : Text
  pub minted_key : Option Text
  pub pending : Pending
  pub storage : Storage
  pub route : Option Text

-- An answer: none at all, or a status with its body, `none` if it is not JSON.
pub data Answer : Type 0 where
  unreachable : Answer
  answer : ℕ → Option Json → Answer

pub data Event : Type 0 where
  choose_mode : Bool → Event
  type_key type_token : Text → Event
  submit_key submit_bootstrap : Event
  on_answer : Answer → Event
  leave : Event

unfoldable pub fail : Text → LoginPage → LoginPage
fail message p = record p { error = some (str message) }

unfoldable pub unreachable_text : Text
unreachable_text = text "Could not reach the backend. Check NEXT_PUBLIC_API_URL and CORS."

unfoldable pub store_key : Text → LoginPage → LoginPage
store_key key p = record p { storage = record (p.storage) { api_key = some key } }

-- `verifyAndStore`, from the answer on, and whether it returns true.
unfoldable pub verify_and_store : Text → ℕ → LoginPage → LoginPage × Bool
unfolding is_ok fail store_key
verify_and_store key status p =
    if status == 401 || status == 403
    then (fail (text "That API key was rejected by the backend.") p, false)
    else if not (is_ok status)
    then (
      fail
          (text "The backend answered "
            ++ decimal status
            ++ text
                " for /providers. If this is a 404, NEXT_PUBLIC_API_URL is pointing at the wrong path.")
          p,
      false,
    )
    else (store_key key p, true)

unfoldable pub finally : LoginPage → LoginPage
finally p = record p { busy = false; pending = nothing }

unfoldable pub go_to_dashboard : LoginPage × Bool → LoginPage
go_to_dashboard (p, true) = record p { route = some (text "/dashboard") }
go_to_dashboard (p, false) = p

unfoldable pub finish_key : Text → Answer → LoginPage → LoginPage
unfolding fail finally go_to_dashboard verify_and_store unreachable_text
finish_key key unreachable p = finally (fail unreachable_text p)
finish_key key (answer status body) p = finally (go_to_dashboard (verify_and_store key status p))

unfoldable pub bootstrap_error : ℕ → Option Json → Option Json
unfolding or_else member
bootstrap_error status body = or_else (member (text "detail") body) (
    some (
      str (
        if status == 401
        then text "That bootstrap token was rejected."
        else text "Bootstrap failed (" ++ decimal status ++ text ").")))

abbrev non_empty : Option Json → Option Text
non_empty (some (str key)) = if is_empty key then none else some key
non_empty other = none

-- `body?.api_key?.key`, if it is not empty; the source declares it a string.
unfoldable pub minted_of : Option Json → Option Text
unfolding member
minted_of body = non_empty (member (text "key") (member (text "api_key") body))

unfoldable pub finish_bootstrap : Answer → LoginPage → LoginPage
unfolding is_ok fail finally store_key bootstrap_error minted_of unreachable_text
finish_bootstrap unreachable p = finally (fail unreachable_text p)
finish_bootstrap (answer status body) p = finally (
    if not (is_ok status)
    then record p { error = bootstrap_error status body }
    else elim (minted_of body) [
      | none ↦ fail (text "The backend did not return a key.") p
      | some key ↦ record (store_key key p) { minted_key = some key }
    ])

-- The form is on the page until a key has been minted.
unfoldable pub shows_form : LoginPage → Bool
shows_form p = elim p.minted_key [ none ↦ true | some k ↦ false ]

unfoldable pub start : Pending → LoginPage → LoginPage
start request p = record p { busy = true; error = none; pending = request }

unfoldable pub finish : Pending → Answer → LoginPage → LoginPage
unfolding finish_key finish_bootstrap
finish nothing a p = p
finish minting a p = finish_bootstrap a p
finish (verifying key) a p = finish_key key a p

unfoldable pub step : LoginPage → Event → LoginPage
unfolding start finish shows_form
step p (choose_mode b) = if shows_form p then record p { bootstrap_mode = b; error = none } else p
step p (type_key v) = if shows_form p && not p.bootstrap_mode then record p { key_field = v } else p
step p (type_token v) = if shows_form p && p.bootstrap_mode then record p { token_field = v } else p
step p submit_key =
    if shows_form p && not p.bootstrap_mode && not (p.busy || is_empty (trim p.key_field))
    then start (verifying (trim p.key_field)) p
    else p
step p submit_bootstrap =
    if shows_form p && p.bootstrap_mode && not (p.busy || is_empty (trim p.token_field))
    then start minting p
    else p
step p (on_answer a) = finish p.pending a p
step p leave = if shows_form p then p else record p { route = some (text "/dashboard") }

unfoldable pub run : LoginPage → List Event → LoginPage
run p [] = p
run p (e ∷ es) = run (step p e) es

unfoldable pub new_page : Storage → LoginPage
new_page s = record {
  bootstrap_mode = false;
  busy = false;
  error = none;
  key_field = [];
  token_field = [];
  minted_key = none;
  pending = nothing;
  storage = s;
  route = none;
}
