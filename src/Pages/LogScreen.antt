-- ===== src/Pages/LogScreen.antt =====
-- The filters and the selection of frontend/app/(app)/logs/page.tsx.
use llmplane.Common.{
  Bool, false, not, ◌||◌, any, List, [], ◌∷◌, Option, none, some, Text, text, text_eq, is_empty,
  if◌then◌else◌, Dict, lookup,
}
use llmplane.Display.Status.{Tone, neutral, info, warning, danger, tone_classes}
use llmplane.Display.Explorer.{or_undefined}
use llmplane.Hooks.Filters.{LogFilters}
use llmplane.Hooks.Keys.{Key}
use llmplane.Hooks.Queries.{Query, key}
use llmplane.Pages.Export.{LogEntry}

unfoldable pub levels : List Text
levels = text "DEBUG" ∷ text "INFO" ∷ text "WARNING" ∷ text "ERROR" ∷ text "CRITICAL" ∷ []

unfoldable pub services : List Text
services =
    text "gateway"
    ∷ text "provider"
    ∷ text "model"
    ∷ text "deployment"
    ∷ text "evaluation"
    ∷ text "worker"
    ∷ text "application"
    ∷ text "infrastructure"
    ∷ []

unfoldable pub level_tone : Dict Tone
level_tone =
    (text "DEBUG", neutral)
    ∷ (text "INFO", info)
    ∷ (text "WARNING", warning)
    ∷ (text "ERROR", danger)
    ∷ (text "CRITICAL", danger)
    ∷ []

abbrev tone_or_neutral : Option Tone → Tone
tone_or_neutral none = neutral
tone_or_neutral (some tone) = tone

abbrev or_info : Option Text → Text
or_info none = text "INFO"
or_info (some level) = level

-- `levelClass`: the class of the tone, and whether the text is bold.
unfoldable pub level_class : Option Text → Text × Bool
unfolding level_tone tone_classes lookup text_eq
level_class level =
    let name = or_info level in
    (
      (tone_classes (tone_or_neutral (lookup name level_tone))).text_class,
      text_eq name (text "CRITICAL"),
    )

pub record LogsPage : Type 0 where
  pub q : Text
  pub level : Text
  pub service : Text
  pub live : Bool
  pub selected : Option LogEntry

unfoldable pub new_page : LogsPage
new_page = record { q = []; level = []; service = []; live = false; selected = none }

pub data Event : Type 0 where
  types picks_level picks_service : Text → Event
  toggles_live closes : Event
  selects : LogEntry → Event

-- An option of a list, or the first one, which stands for all.
abbrev is_offered : List Text → Text → Bool
is_offered options s = is_empty s || any (text_eq s) options

unfoldable pub step : LogsPage → Event → LogsPage
unfolding levels services text_eq
step p (types s) = record p { q = s }
step p (picks_level s) = if is_offered levels s then record p { level = s } else p
step p (picks_service s) = if is_offered services s then record p { service = s } else p
step p toggles_live = record p { live = not p.live }
step p (selects e) = record p { selected = some e }
step p closes = record p { selected = none }

unfoldable pub run : LogsPage → List Event → LogsPage
unfolding step
run p [] = p
run p (e ∷ es) = run (step p e) es

-- `filters`.
unfoldable pub filters : LogsPage → LogFilters
unfolding or_undefined
filters p = record {
  q = or_undefined p.q;
  level = or_undefined p.level;
  service = or_undefined p.service;
  provider = none;
  model = none;
  request_id = none;
  trace_id = none;
  limit = some 500;
}

-- The key of the query that the page is drawn from.
unfoldable pub page_key : LogsPage → Key
unfolding filters key
page_key p = key (Query.logs (filters p) p.live)

-- `Detail`: `value ?? "—"`.
abbrev pub or_dash : Option Text → Text
or_dash none = text "—"
or_dash (some value) = value

unfoldable pub details : LogEntry → List (Text × Text)
details e =
    (text "Timestamp", or_dash e.timestamp)
    ∷ (text "Service", or_dash e.service)
    ∷ (text "Provider", or_dash e.provider)
    ∷ (text "Model", or_dash e.model)
    ∷ (text "Request ID", or_dash e.request_id)
    ∷ (text "Trace ID", or_dash e.trace_id)
    ∷ []
