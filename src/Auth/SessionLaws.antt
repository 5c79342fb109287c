-- ===== src/Auth/SessionLaws.antt =====
-- Signing out, the OAuth callback, and what requests carry.
use llmplane.Common.{
  ℕ, ◌≡◌, refl, Bool, true, false, none, some, Text, text, is_empty, text_methods, arith,
}
use llmplane.Api.Json.{Json}
use llmplane.Api.Fetch.{Options, request_headers, content_headers}
use llmplane.Auth.Storage.{
  Storage, is_authed, app_gate, login_gate, handle_logout, answers, on_exchange, store_session,
  store_user, field_text, is_ok,
}

-- Exactly one of the gate and the login page redirects, whatever is stored: neither sends the user on
-- to the other and back.
gates-opposed :
    (s : Storage)
    → (app_gate s ≡ none → login_gate s ≡ some (text "/dashboard"))
      × (login_gate s ≡ none → app_gate s ≡ some (text "/"))
      × (app_gate s ≡ some (text "/") → login_gate s ≡ none)
unfolding app_gate is_authed login_gate
gates-opposed s = ground arith

-- Signing out, whether or not the backend was reached, closes the gate, opens the login page, and
-- leaves requests without the credentials that were stored.
pub handle_logout-closes :
    (reached : Bool) (s : Storage) (o : Options)
    → let out = (handle_logout reached s).0 in
      (app_gate out ≡ some (handle_logout reached s).1)
      × (login_gate out ≡ none)
      × (request_headers out.api_key o ≡ content_headers o.is_form_data o.headers)
unfolding app_gate is_authed login_gate handle_logout request_headers text_methods
handle_logout-closes reached s o = (refl, refl, refl)

-- A browser that signs in by OAuth, with an answer that carries a session token, passes the gate; but
-- its requests carry the headers that they would have carried before: the token adds none.
pub on_exchange-headers :
    (status : ℕ) (reply : Json) (s : Storage) (o : Options) (token : Text)
    → is_ok status ≡ true
    → field_text (text "access_token") reply ≡ some token
    → is_empty token ≡ false
    → let after = (on_exchange (answers status reply) s).0 in
      (app_gate after ≡ none) × (request_headers after.api_key o ≡ request_headers s.api_key o)
unfolding on_exchange store_session store_user app_gate is_authed
on_exchange-headers status reply s o token k f e = ground arith
