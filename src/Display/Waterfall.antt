-- ===== src/Display/Waterfall.antt =====
-- `buildWaterfall` of frontend/lib/trace-spans.ts, on whole milliseconds. The two roundings of a
-- fraction of the total are parameters.
use llmplane.Common.{
  ℕ, ◌+◌, ◌-◌, max, Bool, true, false, List, [], ◌∷◌, Option, none, some, Text, text, if◌then◌else◌,
}

pub record WaterfallSpan : Type 0 where
  pub name : Text
  pub start_ms : ℕ
  pub duration_ms : ℕ
  pub is_error : Bool

-- What is read of a `Trace`: whether its status is "success", and its times.
pub record Trace : Type 0 where
  pub is_success : Bool
  pub latency_ms : ℕ
  pub ttft_ms : Option ℕ

pub record RawSpan : Type 0 where
  pub raw_name : Text
  pub raw_duration : ℕ
  pub raw_error : Bool

abbrev ok_span : Text → ℕ → RawSpan
ok_span name duration = record { raw_name = name; raw_duration = duration; raw_error = false }

-- The loop over `raw`, from `cursor` on.
unfoldable pub place : ℕ → List RawSpan → List WaterfallSpan
place cursor [] = []
place cursor (s ∷ raw) =
    record {
      name = s.raw_name;
      start_ms = cursor;
      duration_ms = s.raw_duration;
      is_error = s.raw_error;
    }
    ∷ place (cursor + s.raw_duration) raw

module _ (quarter six_percent : ℕ → ℕ) where
  unfoldable pub total_of : Trace → ℕ
  total_of t = max (t.latency_ms) 1

  unfoldable pub provider_ms : Trace → ℕ
  unfolding total_of
  provider_ms t = elim t.ttft_ms [ none ↦ quarter (total_of t) | some ms ↦ ms ] - 6 - 2

  unfoldable pub evaluation_ms : Trace → ℕ
  unfolding total_of
  evaluation_ms t = max 1 (six_percent (total_of t))

  unfoldable pub others_ms : Trace → ℕ
  unfolding provider_ms evaluation_ms
  others_ms t = 6 + 2 + provider_ms t + evaluation_ms t + 4

  unfoldable pub build_waterfall : Trace → List WaterfallSpan
  unfolding others_ms place
  build_waterfall t = place 0 (
      ok_span (text "Gateway") 6
      ∷ ok_span (text "Routing") 2
      ∷ ok_span (text "Provider") (provider_ms t)
      ∷ record {
        raw_name = text "Model";
        raw_duration = max 1 (total_of t - others_ms t);
        raw_error = if t.is_success then false else true;
      }
      ∷ ok_span (text "Evaluation") (evaluation_ms t)
      ∷ ok_span (text "Storage") 4
      ∷ [])
