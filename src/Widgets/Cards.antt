-- ===== src/Widgets/Cards.antt =====
-- The cards of frontend/components/ui/cards.tsx, less their markup: `KpiCard`, `StatusBadge` and
-- `ErrorState`. The values are whole numbers; `currency` stands for `formatCurrency`, the other
-- parameters are those of Hooks.Formats.
use llmplane.Common.{
  ℕ, Bool, true, false, [], ◌++◌, map, Option, none, some, Text, text, is_empty, if◌then◌else◌,
  ◌==◌, ltb, ℤ, pos_part, neg_part, ◌+◌,
}
use mathlib.Core.Option.{map as option_map}
use llmplane.Hooks.Formats.{one_digit, format_number, format_latency, format_tokens}
use llmplane.Display.Status.{tone_for, tone_classes, ToneClasses, is_transient}

pub data Format : Type 0 where
  number currency latency tokens percent : Format

-- `value` of `KpiCard`; null and undefined are alike.
pub data Amount : Type 0 where
  missing : Amount
  words : Text → Amount
  count : ℕ → Amount

unfoldable pub is_blank : Amount → Bool
is_blank missing = true
is_blank (words s) = is_empty s
is_blank (count n) = false

-- `hint &&`.
abbrev pub non_empty : Option Text → Option Text
non_empty none = none
non_empty (some s) = if is_empty s then none else some s

pub data Arrow : Type 0 where
  up down level : Arrow

-- What a card shows under its title.
pub record Kpi : Type 0 where
  pub value : Text
  pub hint : Option Text
  pub trend : Option (Arrow × Text)

module _ (currency_text : ℕ → Text) (to_fixed : ℕ → ℕ → ℕ → ℕ) (locale show : ℕ → Text) where
  unfoldable pub format_count : ℕ → Format → Text
  unfolding one_digit format_number format_latency format_tokens
  format_count n currency = currency_text n
  format_count n latency = format_latency to_fixed locale show n
  format_count n tokens = format_tokens to_fixed locale show n
  format_count n percent = one_digit show (to_fixed 1 n 1) ++ text "%"
  format_count n number = format_number to_fixed locale show n

  -- `formatValue`.
  unfoldable pub format_value : Amount → Format → Text
  unfolding format_count
  format_value missing format = []
  format_value (words s) format = s
  format_value (count n) format = format_count n format

  abbrev magnitude : ℤ → Text
  magnitude t = one_digit show (to_fixed 1 (pos_part t + neg_part t) 1) ++ text "%"

  unfoldable pub trend_of : ℤ → Arrow × Text
  unfolding one_digit
  trend_of t =
      if ltb 0 (pos_part t)
      then (up, magnitude t)
      else if ltb 0 (neg_part t)
      then (down, magnitude t)
      else (level, magnitude t)

  unfoldable pub kpi_card : Amount → Format → Text → Option Text → Option ℤ → Kpi
  unfolding is_blank format_value trend_of
  kpi_card value format empty_label hint trend =
      if is_blank value then record { value = empty_label; hint = none; trend = none } else record {
        value = format_value value format;
        hint = non_empty hint;
        trend = option_map trend_of trend;
      }

pub record Badge : Type 0 where
  pub classes : ToneClasses
  pub pulses : Bool
  pub label : Text

-- `label ?? status.replace(/_/g, " ")`.
unfoldable pub status_badge : Text → Option Text → Badge
unfolding tone_for tone_classes is_transient
status_badge status label = record {
  classes = tone_classes (tone_for (some status));
  pulses = is_transient (some status);
  label = elim label [ none ↦ map (λ c. if c == b'_' then b' ' else c) status | some l ↦ l ];
}

-- A thrown value, as `ErrorState` tells them apart.
pub data Thrown : Type 0 where
  error : Text → Thrown
  string : Text → Thrown
  other : Thrown

unfoldable pub error_message : Thrown → Text
error_message (error message) = message
error_message (string s) = s
error_message other = text "Unknown error"
