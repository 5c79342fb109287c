-- ===== src/Widgets/Palette.antt =====
-- The command palette of frontend/components/layout/CommandPalette.tsx: whether it is open, and
-- what it opens. The header's button reaches it by frontend/components/layout/command-palette-bus.ts.
use llmplane.Common.{
  ℕ, ◌+◌, ◌≤◌, Bool, true, false, not, ◌&&◌, ◌||◌, List, [], ◌∷◌, ◌++◌, Option, none, some, Text,
  text, text_eq, is_empty, length, if◌then◌else◌, arith,
}

-- `process.env.X || fallback`.
unfoldable pub url_or : Option Text → Text → Text
url_or none fallback = fallback
url_or (some url) fallback = if is_empty url then fallback else url

abbrev pub grafana_fallback : Text
grafana_fallback = text "http://localhost:3001"

abbrev pub langfuse_fallback : Text
langfuse_fallback = text "https://cloud.langfuse.com"

pub record Key : Type 0 where
  pub meta_key : Bool
  pub ctrl_key : Bool
  pub key : Text

-- A page of the application, or an address in a tab of its own.
pub data Target : Type 0 where
  route window : Text → Target

pub data Event : Type 0 where
  key_down : Key → Event
  opens_by_bus clicks_backdrop : Event
  selects : Target → Event

abbrev is_hotkey : Key → Bool
is_hotkey k = (k.meta_key || k.ctrl_key) && text_eq k.key (text "k")

-- One event, on `open`, and what is opened; the list is there only while the palette is open.
unfoldable pub step : Bool → Event → Bool × List Target
unfolding text_eq
step is_open (key_down k) = (if is_hotkey k then not is_open else is_open, [])
step is_open opens_by_bus = (true, [])
step is_open clicks_backdrop = (false, [])
step is_open (selects target) = if is_open then (false, target ∷ []) else (false, [])

unfoldable pub run : Bool → List Event → Bool × List Target
unfolding step
run is_open [] = (is_open, [])
run is_open (e ∷ es) =
    let (now_open, gone) = step is_open e in
    let (at_end, later) = run now_open es in (at_end, gone ++ later)

-- How often the palette is asked to open: by the hotkey, or by the bus.
abbrev openings : List Event → ℕ
openings [] = 0
openings (key_down k ∷ es) = (if is_hotkey k then 1 else 0) + openings es
openings (opens_by_bus ∷ es) = 1 + openings es
openings (clicks_backdrop ∷ es) = openings es
openings (selects target ∷ es) = openings es

-- Each opening of the palette leads to one page at most.
run-openings :
    (is_open : Bool) (es : List Event)
    → length (run is_open es).1 + (if (run is_open es).0 then 1 else 0)
      ≤ openings es + (if is_open then 1 else 0)
unfolding run step
run-openings b [] = omega arith
run-openings b (key_down k ∷ es) = ground (arith, run-openings b es, run-openings (not b) es)
run-openings b (opens_by_bus ∷ es) = ground (arith, run-openings true es)
run-openings b (clicks_backdrop ∷ es) = ground (arith, run-openings false es)
run-openings b (selects target ∷ es) = ground (arith, run-openings false es)
