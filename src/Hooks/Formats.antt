-- ===== src/Hooks/Formats.antt =====
-- The formats of frontend/lib/utils.ts, for whole numbers. `to_fixed d n k` stands for
-- `(n / k).toFixed(d)` as a number of units of the last digit, `locale` for `toLocaleString`, and
-- `show` for a number's text.
use llmplane.Common.{ℕ, ◌/◌, ◌%◌, ◌++◌, Text, text, if◌then◌else◌, leb}

-- One digit, or two, after the point.
unfoldable pub one_digit : (ℕ → Text) → ℕ → Text
one_digit show t = show (t / 10) ++ (text "." ++ show (t % 10))

unfoldable pub two_digits : (ℕ → Text) → ℕ → Text
two_digits show t = show (t / 100) ++ (text "." ++ (show (t % 100 / 10) ++ show (t % 10)))

module _ (to_fixed : ℕ → ℕ → ℕ → ℕ) (locale show : ℕ → Text) where
  unfoldable pub format_number : ℕ → Text
  unfolding one_digit
  format_number value =
      if leb 1000000 value
      then one_digit show (to_fixed 1 value 1000000) ++ text "M"
      else (if leb 1000 value
          then one_digit show (to_fixed 1 value 1000) ++ text "K"
          else locale value)

  unfoldable pub format_latency : ℕ → Text
  unfolding two_digits
  format_latency ms =
      if leb 1000 ms then two_digits show (to_fixed 2 ms 1000) ++ text "s" else show ms ++ text "ms"

  unfoldable pub format_tokens : ℕ → Text
  unfolding one_digit two_digits
  format_tokens value =
      if leb 1000000 value
      then two_digits show (to_fixed 2 value 1000000) ++ text "M"
      else (if leb 1000 value
          then one_digit show (to_fixed 1 value 1000) ++ text "K"
          else locale value)
