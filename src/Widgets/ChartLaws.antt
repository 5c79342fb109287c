-- ===== src/Widgets/ChartLaws.antt =====
-- What each key of a themed option holds.
use llmplane.Common.{
  Bool, not, ◌||◌, Option, none, some, Text, text, text_eq, Dict, spread, if◌then◌else◌,
}
use llmplane.Widgets.Values.{Value, record_of}
use llmplane.Widgets.Chart.{Chrome, axis_theme, tooltip_theme, with_defaults, truthy, own_entries}

module _ {A : Type 0} (is_true : A → Bool) (entries : Value A → Dict (Value A)) where
  -- A key of the object below a conditional assignment to it, and of the one above.
  abbrev layer : Bool → Option (Value A) → (Value A → Value A) → Option (Value A) → Option (Value A)
  layer b given f below =
      if b
      then elim given [ none ↦ below | some v ↦ if truthy is_true v then some (f v) else below ]
      else below

  -- What a key holds by its name alone: `v` is what the caller gave for it.
  abbrev pub shown : Chrome → Text → Value A → Value A
  shown c j v =
      if not (truthy is_true v)
      then v
      else (if text_eq (text "tooltip") j
          then record_of (spread (tooltip_theme c) (own_entries entries v))
          else (if text_eq (text "xAxis") j || text_eq (text "yAxis") j
              then with_defaults (axis_theme c) v
              else v))
