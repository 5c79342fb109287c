-- ===== src/Scene/Settings.antt =====
-- The store of the map's settings, frontend/components/command-center/store.ts. The middleware
-- `persist` writes the settings to local storage with each change, and a reload puts what it reads
-- over the first ones. `write` and `read` stand for what the middleware does to them.
use llmplane.Common.{Bool, false, List, [], ◌∷◌, Option, none, some, Text, ◌≡◌}

pub data ViewMode : Type 0 where
  three_d two_d : ViewMode

pub data CameraMode : Type 0 where
  overview gateway models observability gpu deployment : CameraMode

pub record Settings : Type 0 where
  pub view_mode : ViewMode
  pub reduce_motion : Bool
  pub camera_mode : CameraMode

-- The initial state of `create`.
unfoldable pub first_settings : Settings
first_settings = record { view_mode = three_d; reduce_motion = false; camera_mode = overview }

pub data Change : Type 0 where
  sets_view_mode : ViewMode → Change
  sets_reduce_motion : Bool → Change
  sets_camera_mode : CameraMode → Change

unfoldable pub set : Settings → Change → Settings
set s (sets_view_mode m) = record s { view_mode = m }
set s (sets_reduce_motion v) = record s { reduce_motion = v }
set s (sets_camera_mode m) = record s { camera_mode = m }

-- The page's settings, and the entry "llcp-command-center-ui" of local storage.
pub record Ui : Type 0 where
  pub settings : Settings
  pub stored : Option Text

module _ (write : Settings → Text) (read : Text → Option Settings) where
  unfoldable pub change : Ui → Change → Ui
  unfolding set
  change u c = let s = set u.settings c in record { settings = s; stored = some (write s) }

  unfoldable pub changes : Ui → List Change → Ui
  unfolding change
  changes u [] = u
  changes u (c ∷ cs) = changes (change u c) cs

  abbrev settings_in : Option Settings → Settings
  settings_in none = first_settings
  settings_in (some s) = s

  unfoldable pub restored : Option Text → Settings
  restored none = first_settings
  restored (some t) = settings_in (read t)

  unfoldable pub reload : Ui → Ui
  unfolding restored
  reload u = record u { settings = restored u.stored }

  -- Settings that a reload keeps are kept by a reload after any changes, where `read` reads back what
  -- `write` writes.
  reload-changes :
      (read-write : (s : Settings) → read (write s) ≡ some s) (u : Ui)
      → reload u ≡ u
      → (cs : List Change) → reload (changes u cs) ≡ changes u cs
  unfolding reload restored changes change
  reload-changes read-write u kept [] = kept
  reload-changes read-write u kept (c ∷ cs) =
      reload-changes read-write (change u c) (simp (read-write (set u.settings c))) cs
