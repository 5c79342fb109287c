-- ===== src/Auth/Storage.antt =====
-- The entries that the frontend keeps in `localStorage`, and who reads and writes them:
-- frontend/app/(app)/layout.tsx, frontend/app/page.tsx on mount,
-- frontend/app/auth/callback/[provider]/page.tsx and frontend/components/layout/Header.tsx.
use llmplane.Common.{
  ℕ, Bool, true, false, not, ◌&&◌, ◌||◌, ◌++◌, Option, none, some, Text, text, text_eq, includes,
  is_empty, if◌then◌else◌, leb,
}
use llmplane.Api.Url.{or_empty}
use llmplane.Api.Json.{Json, null, bool, num, str, element_text}
use llmplane.Logs.Frames.{member}

-- `llcp_api_key`, `llcp_session_token` and `llcp_user`; `llcp_user` is kept before `JSON.stringify`.
pub record Storage : Type 0 where
  pub api_key : Option Text
  pub session_token : Option Text
  pub user : Option Json

abbrev pub is_truthy : Option Text → Bool
is_truthy t = not (is_empty (or_empty t))

-- `localStorage.getItem("llcp_api_key") || localStorage.getItem("llcp_session_token")`.
unfoldable pub is_authed : Storage → Bool
is_authed s = is_truthy s.api_key || is_truthy s.session_token

-- The effect of `AppLayout`: a redirect, or `none` where the page is shown.
unfoldable pub app_gate : Storage → Option Text
unfolding is_authed
app_gate s = if is_authed s then none else some (text "/")

-- The effect of `LoginPage`: the redirect of a browser that is signed in.
unfoldable pub login_gate : Storage → Option Text
login_gate s =
    if is_truthy s.session_token || is_truthy s.api_key then some (text "/dashboard") else none

-- `handleLogout`: whether the request got through is caught, and changes nothing.
unfoldable pub handle_logout : Bool → Storage → Storage × Text
handle_logout reached s =
    let s1 = record s { session_token = none } in
    let s2 = record s1 { user = none } in (record s2 { api_key = none }, text "/")

-- `x` in a condition; a number is kept as its text.
unfoldable pub is_true : Option Json → Bool
is_true none = false
is_true (some null) = false
is_true (some (bool b)) = b
is_true (some (num n)) = not (text_eq n (text "0") || text_eq n (text "NaN"))
is_true (some (str s)) = not (is_empty s)
is_true (some v) = true

unfoldable pub provider_of : Text → Text
unfolding includes
provider_of pathname = if includes pathname (text "/github") then text "github" else text "google"

-- The request of the callback page; `none` where `code` or `state` is missing.
unfoldable pub callback_url : Text → Text → Option Text → Option Text → Option Text
unfolding provider_of
callback_url base pathname code state =
    if not (is_truthy code) || not (is_truthy state)
    then none
    else some (
        base
        ++ text "/auth/oauth/"
        ++ provider_of pathname
        ++ text "/callback?code="
        ++ or_empty code
        ++ text "&state="
        ++ or_empty state)

-- How the exchange ends: it fails with an error's message, or answers with JSON.
pub data Exchange : Type 0 where
  breaks : Text → Exchange
  answers : ℕ → Json → Exchange

-- What the page shows.
pub data CallbackStatus : Type 0 where
  loading success : CallbackStatus
  error : Text → CallbackStatus

unfoldable pub is_ok : ℕ → Bool
is_ok status = leb 200 status && leb status 299

unfoldable pub field_text : Text → Json → Option Text
unfolding member is_true element_text
field_text key reply =
    if is_true (member key (some reply))
    then elim (member key (some reply)) [ none ↦ none | some v ↦ some (element_text v) ]
    else none

abbrev store_token : Option Text → Storage → Storage
store_token none s = s
store_token (some t) s = record s { session_token = some t }

unfoldable pub store_user : Option Json → Storage → Storage
unfolding is_true
store_user user s = if is_true user then record s { user = user } else s

unfoldable pub store_session : Json → Storage → Storage
unfolding field_text store_user member
store_session reply s =
    store_user (member (text "user") (some reply))
      (store_token (field_text (text "access_token") reply) s)

-- `err.message || …`.
unfoldable pub shown_error : Text → CallbackStatus
shown_error message =
    error (if is_empty message then text "Authentication failed. Please try again." else message)

-- What follows the exchange; an answer that is `null` counts as `breaks`, since reading its members
-- throws.
unfoldable pub on_exchange : Exchange → Storage → Storage × CallbackStatus
unfolding is_ok store_session field_text shown_error
on_exchange (breaks message) s = (s, shown_error message)
on_exchange (answers status reply) s = if is_ok status then (store_session reply s, success) else (
  s,
  shown_error (elim (field_text (text "detail") reply) [
    | none ↦ text "Authentication failed"
    | some d ↦ d
  ]),
)
