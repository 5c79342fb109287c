-- ===== src/Display/Traffic.antt =====
-- `useLiveTraffic` of frontend/components/command-center/useLiveTraffic.ts: the window of real
-- requests and the fallback. Times are in microseconds; the two formulas of the rate, with their
-- sine and random number, are kept as what they start from.
use llmplane.Common.{
  ℕ, ◌-◌, Bool, true, not, List, [], ◌∷◌, ◌++◌, keep_if, length, if◌then◌else◌, ltb,
}

-- `rateRef`: from the number of requests in the window, or synthetic.
pub data Rate : Type 0 where
  real_rate : ℕ → Rate
  synthetic : Rate

pub record Traffic : Type 0 where
  pub real_times : List ℕ
  pub simulated : Bool
  pub rate : Rate

unfoldable pub quiet : Traffic
quiet = record { real_times = []; simulated = true; rate = synthetic }

-- A completion that the socket reports, and a tick of the interval, each with its time.
pub data Event : Type 0 where
  completes ticks : ℕ → Event

unfoldable pub is_recent : ℕ → ℕ → Bool
is_recent now t = ltb (now - t) 5000000

unfoldable pub tick : ℕ → Traffic → Traffic
unfolding is_recent
tick now s =
    let times = keep_if (is_recent now) s.real_times in
    let busy = ltb 1 (length times) in
    record {
      real_times = times;
      simulated = not busy;
      rate = if busy then real_rate (length times) else synthetic;
    }

unfoldable pub step : Traffic → Event → Traffic
unfolding tick
step s (completes t) = record s { real_times = s.real_times ++ t ∷ [] }
step s (ticks now) = tick now s

unfoldable pub run : Traffic → List Event → Traffic
unfolding step
run s [] = s
run s (e ∷ es) = run (step s e) es
