-- ===== src/Hooks/FormatLaws.antt =====
-- The digits that the formats show for large numbers.
use llmplane.Common.{ℕ, ◌+◌, ◌*◌, ◌≤◌, ◌<◌, ◌≡◌, ◌++◌, Text, text, arith}
use llmplane.Hooks.Formats.{one_digit, two_digits, format_number, format_latency}

module _ (to_fixed : ℕ → ℕ → ℕ → ℕ) where
  -- `toFixed` gives a nearest number; which of two, where both are as near, is left open.
  pub record IsNearest : Type 0 where
    pub one :
        (n k : ℕ)
        → 0 < k
        → ((2 * k) * to_fixed 1 n k ≤ 20 * n + k) × (20 * n ≤ (2 * k) * to_fixed 1 n k + k)
    pub two :
        (n k : ℕ)
        → 0 < k
        → ((2 * k) * to_fixed 2 n k ≤ 200 * n + k) × (200 * n ≤ (2 * k) * to_fixed 2 n k + k)

  -- A number of thousands shows from 1.0 to 1000.0 before its K: below 999,950 the digits stay
  -- under 1000.0, and above it 1000.0 stands where the next unit would show 1.0.
  format_number-thousands :
      (locale show : ℕ → Text) (value : ℕ)
      → IsNearest
      → 1000 ≤ value
      → value < 1000000
      → (format_number to_fixed locale show value
          ≡ one_digit show (to_fixed 1 value 1000) ++ text "K")
        × (10 ≤ to_fixed 1 value 1000)
        × (to_fixed 1 value 1000 ≤ 10000)
        × (value < 999950 → to_fixed 1 value 1000 < 10000)
        × (999950 < value → to_fixed 1 value 1000 ≡ 10000)
  unfolding format_number
  format_number-thousands locale show value h l m =
      let (a, b) = h.one value 1000 (omega arith) in
      (
        ground (arith, l, m),
        omega (arith, a, b, l),
        omega (arith, a, b, m),
        λ k. omega (arith, a, b, k),
        λ k. omega (arith, a, b, k, m),
      )

  -- From 1,000 ms on a latency is in seconds, at least 1.00, and within five milliseconds of itself.
  pub format_latency-seconds :
      (locale show : ℕ → Text) (ms : ℕ)
      → IsNearest
      → 1000 ≤ ms
      → (format_latency to_fixed locale show ms ≡ two_digits show (to_fixed 2 ms 1000) ++ text "s")
        × (100 ≤ to_fixed 2 ms 1000)
        × (10 * to_fixed 2 ms 1000 ≤ ms + 5)
        × (ms ≤ 10 * to_fixed 2 ms 1000 + 5)
  unfolding format_latency
  format_latency-seconds locale show ms h l =
      let (a, b) = h.two ms 1000 (omega arith) in
      (ground (arith, l), omega (arith, a, b, l), omega (arith, a, b), omega (arith, a, b))
