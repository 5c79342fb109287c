-- ===== src/Auth/Menu.antt =====
-- The buttons of frontend/components/layout/Header.tsx: the search, the theme, the menu and its
-- "Sign out". The theme itself is kept by next-themes, and comes with the click. `parse` stands for
-- `JSON.parse`, and is none where that throws.
use llmplane.Common.{
  ℕ, zero, suc, ◌≡◌, refl, Bool, true, false, not, List, [], ◌∷◌, ◌++◌, Option, none, some, Text,
  text, text_eq, is_empty, if◌then◌else◌, arith,
}
use llmplane.Auth.Storage.{Storage, is_authed, handle_logout}
use llmplane.Auth.Header.{UserData}

-- `waiting` counts the logouts whose request is out.
pub record Header : Type 0 where
  pub user : Option UserData
  pub show_menu : Bool
  pub mounted : Bool
  pub waiting : ℕ
  pub storage : Storage

pub data Event : Type 0 where
  -- The effect on mount, with the entry "llcp_user".
  mounts : Option Text → Event
  searches toggles_menu clicks_backdrop signs_out : Event
  -- A click on the theme's button, with `resolvedTheme`.
  toggles_theme : Option Text → Event
  -- Whether the request got through.
  logout_ends : Bool → Event

pub data Effect : Type 0 where
  opens_palette : Effect
  sets_theme posts pushes : Text → Effect

unfoldable pub is_dark : Option Text → Bool
unfolding text_eq
is_dark none = false
is_dark (some t) = text_eq t (text "dark")

unfoldable pub next_theme : Option Text → Text
unfolding is_dark
next_theme resolved = if is_dark resolved then text "light" else text "dark"

module _ (base : Text) (parse : Text → Option (Option UserData)) where
  abbrev parsed_or : Option UserData → Option (Option UserData) → Option UserData
  parsed_or old none = old
  parsed_or old (some u) = u

  unfoldable pub stored_user : Option UserData → Option Text → Option UserData
  stored_user old none = old
  stored_user old (some t) = if is_empty t then old else parsed_or old (parse t)

  abbrev ends : Header → ℕ → Bool → Header × List Effect
  ends h zero reached = (h, [])
  ends h (suc n) reached =
      let (kept, path) = handle_logout reached h.storage in
      (record h { waiting = n; storage = kept }, pushes path ∷ [])

  -- An event on a control that is not shown changes nothing.
  unfoldable pub step : Header → Event → Header × List Effect
  unfolding stored_user next_theme handle_logout
  step h (mounts stored) = (record h { mounted = true; user = stored_user h.user stored }, [])
  step h searches = (h, opens_palette ∷ [])
  step h toggles_menu = (record h { show_menu = not h.show_menu }, [])
  step h clicks_backdrop = (record h { show_menu = false }, [])
  step h signs_out =
      if h.show_menu
      then (record h { waiting = suc h.waiting }, posts (base ++ text "/auth/logout") ∷ [])
      else (h, [])
  step h (toggles_theme resolved) =
      if h.mounted then (h, sets_theme (next_theme resolved) ∷ []) else (h, [])
  step h (logout_ends reached) = ends h h.waiting reached

  unfoldable pub run : Header → List Event → Header × List Effect
  unfolding step
  run h [] = (h, [])
  run h (e ∷ es) = let (h1, out) = step h e in let (h2, later) = run h1 es in (h2, out ++ later)

  ends-signed_out :
      (h : Header) (n : ℕ) (reached : Bool)
      → is_authed h.storage ≡ false
      → is_authed (ends h n reached).0.storage ≡ false
  unfolding is_authed handle_logout
  ends-signed_out h zero reached out = out
  ends-signed_out h (suc n) reached out = refl

  -- No event of the header signs the browser in again.
  step-signed_out :
      (h : Header) (e : Event)
      → is_authed h.storage ≡ false
      → is_authed (step h e).0.storage ≡ false
  unfolding step is_authed handle_logout
  step-signed_out h (logout_ends reached) out = ends-signed_out h h.waiting reached out
  step-signed_out h signs_out out = ground arith
  step-signed_out h (toggles_theme r) out = ground arith
  step-signed_out h (mounts s) out = out
  step-signed_out h searches out = out
  step-signed_out h toggles_menu out = out
  step-signed_out h clicks_backdrop out = out

  run-signed_out :
      (h : Header) (es : List Event)
      → is_authed h.storage ≡ false
      → is_authed (run h es).0.storage ≡ false
  unfolding run
  run-signed_out h [] out = out
  run-signed_out h (e ∷ es) out = run-signed_out (step h e).0 es (step-signed_out h e out)

  -- Once a logout that was sent has ended, however its request went, the browser stays signed out.
  logout_ends-signed_out :
      (h : Header) (n : ℕ)
      → h.waiting ≡ suc n
      → (reached : Bool) (es : List Event)
      → is_authed (run h (logout_ends reached ∷ es)).0.storage ≡ false
  unfolding run is_authed handle_logout
  logout_ends-signed_out h n waits reached es =
      run-signed_out (ends h h.waiting reached).0 es (simp waits)
