-- ===== src/Display/Status.antt =====
-- The semantics of statuses in frontend/lib/status.ts. Statuses are ASCII text.
use llmplane.Common.{
  Bool, not, ◌&&◌, List, [], ◌∷◌, Option, none, some, Text, text, text_eq, any, Dict, lookup,
  is_empty, if◌then◌else◌,
}
use llmplane.Api.Url.{lower_text, or_empty}

pub data Tone : Type 0 where
  success warning danger info neutral : Tone

unfoldable pub tone_by_status : Dict Tone
tone_by_status =
    (text "healthy", success)
    ∷ (text "degraded", warning)
    ∷ (text "down", danger)
    ∷ (text "unknown", neutral)
    ∷ (text "running", success)
    ∷ (text "pending", warning)
    ∷ (text "downloading", info)
    ∷ (text "stopped", neutral)
    ∷ (text "error", danger)
    ∷ (text "complete", success)
    ∷ (text "completed", success)
    ∷ (text "failed", danger)
    ∷ (text "success", success)
    ∷ (text "timeout", warning)
    ∷ (text "active", success)
    ∷ (text "inactive", neutral)
    ∷ (text "warning", warning)
    ∷ (text "stopping", warning)
    ∷ (text "starting", info)
    ∷ []

abbrev or_neutral : Option Tone → Tone
or_neutral none = neutral
or_neutral (some tone) = tone

unfoldable pub tone_for : Option Text → Tone
unfolding tone_by_status lower_text lookup
tone_for status =
    if is_empty (or_empty status)
    then neutral
    else or_neutral (lookup (lower_text (or_empty status)) tone_by_status)

unfoldable pub transient : List Text
transient =
    text "pending"
    ∷ text "downloading"
    ∷ text "starting"
    ∷ text "stopping"
    ∷ text "running_item"
    ∷ []

unfoldable pub is_transient : Option Text → Bool
unfolding transient lower_text
is_transient status =
    not (is_empty (or_empty status)) && any (text_eq (lower_text (or_empty status))) transient

pub record ToneClasses : Type 0 where
  pub text_class : Text
  pub bg : Text
  pub border : Text
  pub dot : Text

unfoldable pub tone_classes : Tone → ToneClasses
tone_classes success = record {
  text_class = text "text-success";
  bg = text "bg-success-subtle";
  border = text "border-success/25";
  dot = text "bg-success";
}
tone_classes warning = record {
  text_class = text "text-warning";
  bg = text "bg-warning-subtle";
  border = text "border-warning/25";
  dot = text "bg-warning";
}
tone_classes danger = record {
  text_class = text "text-danger";
  bg = text "bg-danger-subtle";
  border = text "border-danger/25";
  dot = text "bg-danger";
}
tone_classes info = record {
  text_class = text "text-info";
  bg = text "bg-info-subtle";
  border = text "border-info/25";
  dot = text "bg-info";
}
tone_classes neutral = record {
  text_class = text "text-muted-foreground";
  bg = text "bg-surface-2";
  border = text "border-border";
  dot = text "bg-subtle-foreground";
}

unfoldable pub tone_hex : Tone → Text
tone_hex success = text "#3fbf80"
tone_hex warning = text "#e0a13a"
tone_hex danger = text "#e5624f"
tone_hex info = text "#4aa3e8"
tone_hex neutral = text "#7c8398"
