-- ===== src/Pages/Overview.antt =====
-- What frontend/app/(app)/cost-analytics/page.tsx and frontend/app/(app)/dashboard/page.tsx show of
-- their queries. Amounts of money and rates are whole numbers of some unit; `currency_text`,
-- `to_fixed`, `locale` and `show` print numbers, `ratio` divides, and `round` is `Math.round`.
use llmplane.Common.{
  ℕ, ◌+◌, ◌&&◌, List, [], ◌∷◌, ◌++◌, map, Option, none, some, Text, text, if◌then◌else◌, ◌==◌,
}
use llmplane.Widgets.Cards.{
  Format, number, currency, latency, percent, count, Kpi, kpi_card, error_message,
}
use llmplane.Hooks.Formats.{one_digit}
use llmplane.Pages.Screens.{QueryResult, loading, failed, Notice, is_loading, error_notice, data_of}

-- `CostBreakdownItem` and `CostBreakdownResponse`.
pub record CostItem : Type 0 where
  pub key : Text
  pub cost_usd : ℕ
  pub request_count : ℕ

pub record CostBreakdown : Type 0 where
  pub total_cost_usd : ℕ
  pub items : List CostItem

-- `TimeseriesPoint`, as far as the charts read it.
pub record Point : Type 0 where
  pub bucket : Text
  pub request_count : ℕ
  pub error_count : ℕ
  pub cost_usd : ℕ

-- `DashboardSummary`, as far as the page reads it.
pub record Summary : Type 0 where
  pub requests_today : ℕ
  pub cost_today_usd : ℕ
  pub avg_latency_ms : ℕ
  pub success_rate_pct : ℕ
  pub error_rate_pct : ℕ
  pub requests_per_minute : ℕ
  pub model_usage : List (Text × ℕ)
  pub active_deployments : ℕ
  pub gpu_util_pct_avg : Option ℕ

pub record CostPage : Type 0 where
  pub notice : Option Notice
  pub kpis : List (Text × Kpi)
  -- The points of the first chart and the parts of the second; a chart without any is an `EmptyState`.
  pub over_time : List (Text × ℕ)
  pub by_model : List (Text × ℕ)

pub record DashboardPage : Type 0 where
  pub kpis : List (Text × Kpi)
  pub requests : List (Text × ℕ)
  pub costs : List (Text × ℕ)
  pub errors : List (Text × ℕ)
  pub models : List (Text × ℕ)
  pub stats : List (Text × Text)

pub data Dashboard : Type 0 where
  skeleton : Dashboard
  stopped : Notice → Dashboard
  content : DashboardPage → Dashboard

abbrev items_of : Option CostBreakdown → List CostItem
items_of none = []
items_of (some b) = b.items

abbrev cost_of : Option CostBreakdown → ℕ
cost_of none = 0
cost_of (some b) = b.total_cost_usd

abbrev points_of : Option (List Point) → List Point
points_of none = []
points_of (some ps) = ps

abbrev or_zero : Option ℕ → ℕ
or_zero none = 0
or_zero (some n) = n

-- `items.reduce((sum, i) => sum + i.request_count, 0)`.
unfoldable pub sum_requests : ℕ → List CostItem → ℕ
sum_requests sum [] = sum
sum_requests sum (i ∷ is) = sum_requests (sum + i.request_count) is

module _ (currency_text : ℕ → Text) (to_fixed : ℕ → ℕ → ℕ → ℕ) (locale show : ℕ → Text) where
  -- A `KpiCard` with neither hint nor trend.
  unfoldable pub card : Text → ℕ → Format → Text × Kpi
  unfolding kpi_card
  card title n format =
      (title, kpi_card currency_text to_fixed locale show (count n) format (text "—") none none)

  unfoldable pub cost_page :
      (ℕ → ℕ → ℕ)
      → QueryResult CostBreakdown
      → QueryResult (List Point)
      → QueryResult ℕ
      → Option CostPage
  unfolding is_loading error_notice data_of sum_requests card
  cost_page ratio breakdown over_time forecast =
      let items = items_of (data_of breakdown) in
      let total_cost = cost_of (data_of breakdown) in
      let total_requests = sum_requests 0 items in
      if is_loading breakdown && is_loading over_time
      then none
      else some (record {
        notice = error_notice (text "Could not load cost data") breakdown;
        kpis =
            card (text "Total Spend") total_cost currency
            ∷ card (text "Total Requests") total_requests number
            ∷ card (text "Avg Cost/Request")
                (if total_requests == 0 then 0 else ratio total_cost total_requests) currency
            ∷ card (text "Projected Month End") (or_zero (data_of forecast)) currency
            ∷ [];
        over_time = map (λ p. (p.bucket, p.cost_usd)) (points_of (data_of over_time));
        by_model = map (λ i. (i.key, i.cost_usd)) items;
      })

  abbrev dash : Text
  dash = text "—"

  abbrev percent_text : ℕ → Text
  percent_text n = one_digit show (to_fixed 1 n 1) ++ text "%"

  unfoldable pub stats_of : (ℕ → ℕ) → Option Summary → List (Text × Text)
  unfolding one_digit
  stats_of round none =
      (text "Success Rate", dash)
      ∷ (text "Req / min", dash)
      ∷ (text "Active Deployments", dash)
      ∷ (text "GPU Util", dash)
      ∷ []
  stats_of round (some s) =
      (text "Success Rate", percent_text s.success_rate_pct)
      ∷ (text "Req / min", one_digit show (to_fixed 1 s.requests_per_minute 1))
      ∷ (text "Active Deployments", show s.active_deployments)
      ∷ (
        text "GPU Util",
        elim s.gpu_util_pct_avg [ none ↦ dash | some n ↦ show (round n) ++ text "%" ],
      )
      ∷ []

  abbrev or_0 : Option Summary → (Summary → ℕ) → ℕ
  or_0 none field = 0
  or_0 (some s) field = field s

  abbrev usage_of : Option Summary → List (Text × ℕ)
  usage_of none = []
  usage_of (some s) = s.model_usage

  unfoldable pub dashboard_page :
      (ℕ → ℕ) → QueryResult Summary → QueryResult (List Point) → Dashboard
  unfolding error_message data_of card stats_of
  dashboard_page round loading series = skeleton
  dashboard_page round (failed e old) series =
      stopped (record { title = text "Could not load dashboard"; message = error_message e })
  dashboard_page round query series =
      let points = points_of (data_of series) in
      let summary = data_of query in
      content (record {
        kpis =
            card (text "Requests Today") (or_0 summary (λ s. s.requests_today)) number
            ∷ card (text "Cost Today") (or_0 summary (λ s. s.cost_today_usd)) currency
            ∷ card (text "Avg Latency") (or_0 summary (λ s. s.avg_latency_ms)) latency
            ∷ card (text "Error Rate") (or_0 summary (λ s. s.error_rate_pct)) percent
            ∷ [];
        requests = map (λ p. (p.bucket, p.request_count)) points;
        costs = map (λ p. (p.bucket, p.cost_usd)) points;
        errors = map (λ p. (p.bucket, p.error_count)) points;
        models = usage_of summary;
        stats = stats_of round summary;
      })
