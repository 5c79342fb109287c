-- ===== src/Display/Examples.antt =====
-- The theorems of this component at concrete inputs.
use llmplane.Common.{
  ◌<◌, All, ℕ, ◌+◌, ◌/◌, ◌*◌, ◌≤◌, ◌≡◌, ◌↔◌, true, List, [], ◌∷◌, some, text, length, keep_if,
  arith,
}
use llmplane.Display.Waterfall.{Trace, others_ms}
use llmplane.Display.Explorer.{bars, max_total}
use llmplane.Display.ExplorerLaws.{Fits, bars-Fits}
use llmplane.Display.Traffic.{Event, completes, ticks, quiet, is_recent, tick, run}
use llmplane.Display.Nav.{NavItem, operate}
use llmplane.Display.DisplayLaws.{arrivals, run-window}

abbrev quarter : ℕ → ℕ
quarter n = (n + 2) / 4

abbrev six_percent : ℕ → ℕ
six_percent n = (6 * n + 50) / 100

abbrev two_requests : List Event
two_requests = completes 1000000 ∷ ticks 1500000 ∷ completes 2000000 ∷ []

run-window_example :
    ((tick 2500000 (run quiet two_requests)).real_times
      ≡ keep_if (is_recent 2500000) (arrivals two_requests))
    × (((tick 2500000 (run quiet two_requests)).simulated ≡ true)
        ↔ (length (keep_if (is_recent 2500000) (arrivals two_requests)) ≤ 1))
run-window_example = run-window two_requests 2500000 (tt, (omega arith, (tt, tt)))

abbrev dashboard : NavItem
dashboard = record {
  label = text "Dashboard";
  href = text "/dashboard";
  icon = text "LayoutDashboard";
  group = operate;
}

-- A trace of 1,000 ms whose first token came late: its bars overflow.
abbrev late : Trace
late = record { is_success = true; latency_ms = 1000; ttft_ms = some 960 }

bars-Fits_example :
    (All Fits (bars quarter six_percent (some (text "t", late)))
      ↔ (others_ms quarter six_percent late < max_total (some (text "t", late))))
    × (13 ≤ others_ms quarter six_percent late)
bars-Fits_example = bars-Fits quarter six_percent (text "t") late
