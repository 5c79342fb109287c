-- ===== src/Hooks/Ranges.antt =====
-- The time ranges of frontend/lib/constants.ts, and what frontend/hooks/useDashboard.ts and
-- frontend/hooks/useCostAnalytics.ts ask the backend for.
use llmplane.Common.{ℕ, ◌*◌, ◌/◌, ◌≤◌, ◌≡◌, min, ◌++◌, Text, text, if◌then◌else◌, leb, arith}

pub data TimeRange : Type 0 where
  last_24h last_7d last_30d last_90d : TimeRange

pub data Granularity : Type 0 where
  minute hour day : Granularity

abbrev pub granularity_text : Granularity → Text
granularity_text minute = text "minute"
granularity_text hour = text "hour"
granularity_text day = text "day"

-- `RANGE_HOURS`.
unfoldable pub range_hours : TimeRange → ℕ
range_hours last_24h = 24
range_hours last_7d = 24 * 7
range_hours last_30d = 24 * 30
range_hours last_90d = 24 * 90

abbrev pub error_reason_max_hours : ℕ
error_reason_max_hours = 720

unfoldable pub granularity_for : ℕ → Granularity
granularity_for hours = if leb hours 2 then minute else (if leb hours (24 * 3) then hour else day)

-- `hours` of `useErrorReasons`.
unfoldable pub error_reason_hours : TimeRange → ℕ
unfolding range_hours
error_reason_hours r = min (range_hours r) error_reason_max_hours

-- `RANGE_DAYS` and `daysForRange`.
unfoldable pub days_for_range : TimeRange → ℕ
days_for_range last_24h = 1
days_for_range last_7d = 7
days_for_range last_30d = 30
days_for_range last_90d = 90

-- The granularity of `useCostOverTime`.
unfoldable pub cost_granularity : ℕ → Granularity
cost_granularity days = if leb days 1 then hour else day

module _ (show : ℕ → Text) where
  -- The paths of `useDashboardTimeseries`, `useErrorReasons` and `useCostOverTime`.
  unfoldable pub timeseries_path : TimeRange → Text
  unfolding range_hours granularity_for
  timeseries_path r =
      let hours = range_hours r in
      text "/dashboard/timeseries?hours="
      ++ (show hours ++ (text "&granularity=" ++ granularity_text (granularity_for hours)))

  unfoldable pub error_reasons_path : TimeRange → Text
  unfolding error_reason_hours
  error_reasons_path r = text "/dashboard/error-reasons?hours=" ++ show (error_reason_hours r)

  unfoldable pub cost_over_time_path : TimeRange → Text
  unfolding days_for_range cost_granularity
  cost_over_time_path r =
      let days = days_for_range r in
      text "/cost/over-time?days="
      ++ (show days ++ (text "&granularity=" ++ granularity_text (cost_granularity days)))

abbrev pub minutes_per : Granularity → ℕ
minutes_per minute = 1
minutes_per hour = 60
minutes_per day = 1440

-- The number of buckets in so many hours.
abbrev pub buckets : ℕ → Granularity → ℕ
buckets hours g = hours * 60 / minutes_per g

-- A chart over any number of hours that the endpoint accepts, of which 8760 is the most, has at most
-- 365 buckets: by the minute up to two hours, by the hour up to three days, and by the day beyond.
pub granularity_for-buckets :
    (hours : ℕ) → hours ≤ 8760 → buckets hours (granularity_for hours) ≤ 365
unfolding granularity_for
granularity_for-buckets hours h = ground (arith, h)

-- For each range on offer, the hours stay within the endpoints' limits of 8760 and 720, the two
-- hooks cover the same time, and both charts have at most 90 points.
pub ranges-IsWithin :
    (r : TimeRange)
    → (range_hours r ≤ 8760)
      × (error_reason_hours r ≤ 720)
      × (range_hours r ≡ 24 * days_for_range r)
      × (buckets (range_hours r) (granularity_for (range_hours r)) ≤ 90)
      × (buckets (24 * days_for_range r) (cost_granularity (days_for_range r)) ≤ 90)
unfolding range_hours error_reason_hours days_for_range granularity_for cost_granularity
ranges-IsWithin r = ground arith
