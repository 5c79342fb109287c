-- ===== src/Api/UrlTests.antt =====
use llmplane.Common.{◌≡◌, refl, none, some, text, text_methods}
use llmplane.Api.Url.{resolve_base_url, resolve_ws_url, guard_base, no_scheme, repeated_prefix}

bare_origin : resolve_base_url (some (text " https://x.app/ ")) ≡ text "https://x.app/api/v1"
unfolding resolve_base_url text_methods
bare_origin = refl

full_base : resolve_base_url (some (text "https://x.app/api/v1//")) ≡ text "https://x.app/api/v1"
unfolding resolve_base_url text_methods
full_base = refl

unset_base : resolve_base_url none ≡ text "http://localhost:8000/api/v1"
unfolding resolve_base_url text_methods
unset_base = refl

socket : resolve_ws_url (some (text "wss://x.app")) ≡ text "wss://x.app/ws"
unfolding resolve_ws_url text_methods
socket = refl

near_miss :
    guard_base (resolve_base_url (some (text "https://x.app/api/vi"))) ≡ some repeated_prefix
unfolding guard_base resolve_base_url text_methods
near_miss = refl

schemeless : guard_base (resolve_base_url (some (text "x.app"))) ≡ some no_scheme
unfolding guard_base resolve_base_url text_methods
schemeless = refl

overlap : guard_base (resolve_base_url (some (text "https://x.app/api"))) ≡ none
unfolding guard_base resolve_base_url text_methods
overlap = refl
