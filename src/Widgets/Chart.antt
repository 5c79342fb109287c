-- ===== src/Widgets/Chart.antt =====
-- The theming of an ECharts option in frontend/components/shared/Chart.tsx, with the palette of
-- frontend/lib/constants.ts.
use llmplane.Common.{
  Bool, true, not, List, [], ◌∷◌, map, Option, none, some, Text, text, text_eq, Dict, lookup,
  insert, spread, is_empty, if◌then◌else◌,
}
use llmplane.Widgets.Values.{
  Value, atom, str, array, object, Items, nil, cons, dict_of, items_of, record_of,
}

pub record Chrome : Type 0 where
  pub axis_line : Text
  pub axis_label : Text
  pub split_line : Text
  pub text_color : Text
  pub tooltip_bg : Text
  pub tooltip_border : Text
  pub tooltip_text : Text

abbrev dark : Chrome
dark = record {
  axis_line = text "#3a4152";
  axis_label = text "#9aa3b8";
  split_line = text "#2a303e";
  text_color = text "#9aa3b8";
  tooltip_bg = text "#1b202b";
  tooltip_border = text "#2f3644";
  tooltip_text = text "#e8eaf0";
}

abbrev light : Chrome
light = record {
  axis_line = text "#d3d8e0";
  axis_label = text "#5b6478";
  split_line = text "#e8ebf0";
  text_color = text "#5b6478";
  tooltip_bg = text "#ffffff";
  tooltip_border = text "#d3d8e0";
  tooltip_text = text "#252a35";
}

-- `CHROME[resolvedTheme === "light" ? "light" : "dark"]`.
unfoldable pub chrome_for : Option Text → Chrome
chrome_for none = dark
chrome_for (some theme) = if text_eq theme (text "light") then light else dark

abbrev pub chart_colors : List Text
chart_colors =
    text "#5b8def"
    ∷ text "#3fbf80"
    ∷ text "#e0a13a"
    ∷ text "#d968a4"
    ∷ text "#4bb8c9"
    ∷ text "#e5624f"
    ∷ text "#9b7ede"
    ∷ text "#8fbf5a"
    ∷ text "#4a90d9"
    ∷ text "#c98a4b"
    ∷ []

module _ {A : Type 0} where
  abbrev one : Text → Value A → Value A
  one k v = record_of ((k, v) ∷ [])

  -- `axisTheme`.
  unfoldable pub axis_theme : Chrome → Dict (Value A)
  axis_theme c =
      (text "axisLine", one (text "lineStyle") (one (text "color") (str c.axis_line)))
      ∷ (text "axisLabel", one (text "color") (str c.axis_label))
      ∷ (text "splitLine", one (text "lineStyle") (one (text "color") (str c.split_line)))
      ∷ []

  unfoldable pub tooltip_theme : Chrome → Dict (Value A)
  tooltip_theme c =
      (text "backgroundColor", str c.tooltip_bg)
      ∷ (text "borderColor", str c.tooltip_border)
      ∷ (text "textStyle", one (text "color") (str c.tooltip_text))
      ∷ []

  -- `color` and `baseTheme`, in the object that `themed` is.
  unfoldable pub base_theme : Chrome → Dict (Value A)
  unfolding tooltip_theme
  base_theme c =
      (text "color", array (items_of (map str chart_colors)))
      ∷ (text "backgroundColor", str (text "transparent"))
      ∷ (text "textStyle", one (text "color") (str c.text_color))
      ∷ (text "legend", one (text "textStyle") (one (text "color") (str c.text_color)))
      ∷ (text "tooltip", record_of (tooltip_theme c))
      ∷ []

  unfoldable mutual
    pub with_defaults : Dict (Value A) → Value A → Value A
    with_defaults m (array vs) = array (with_defaults_each m vs)
    with_defaults m (object fs) = record_of (spread m (dict_of fs))
    with_defaults m (atom a) = atom a
    with_defaults m (str s) = str s

    pub with_defaults_each : Dict (Value A) → Items A → Items A
    with_defaults_each m nil = nil
    with_defaults_each m (cons v vs) = cons (with_defaults m v) (with_defaults_each m vs)

-- `...v`, where `entries` gives what JavaScript takes from a value that is no plain object.
abbrev pub own_entries : {A : Type 0} → (Value A → Dict (Value A)) → Value A → Dict (Value A)
own_entries entries (object fs) = dict_of fs
own_entries entries v = entries v

-- Whether a value counts as true is JavaScript's own for an atom.
module _ {A : Type 0} (is_true : A → Bool) where
  unfoldable pub truthy : Value A → Bool
  truthy (atom a) = is_true a
  truthy (str s) = not (is_empty s)
  truthy (array vs) = true
  truthy (object fs) = true

  -- `if (option[key]) themed[key] = f(option[key])`.
  unfoldable pub set_if :
      Text → (Value A → Value A) → Dict (Value A) → Dict (Value A) → Dict (Value A)
  unfolding truthy lookup insert
  set_if key f option themed = elim (lookup key option) [
    | none ↦ themed
    | some v ↦ if truthy v then insert key (f v) themed else themed
  ]

  -- `themed`, of the resolved theme and the caller's `option`.
  unfoldable pub themed : (Value A → Dict (Value A)) → Option Text → Dict (Value A) → Dict (Value A)
  unfolding set_if base_theme axis_theme tooltip_theme with_defaults chrome_for spread insert
  themed entries theme option =
      let c = chrome_for theme in
      let start =
        insert (text "backgroundColor") (str (text "transparent")) (spread (base_theme c) option) in
      let tooltip =
        set_if (text "tooltip") (λ v. record_of (spread (tooltip_theme c) (own_entries entries v)))
          option start in
      let x_axis = set_if (text "xAxis") (with_defaults (axis_theme c)) option tooltip in
      set_if (text "yAxis") (with_defaults (axis_theme c)) option x_axis
