-- ===== src/Display/ExplorerLaws.antt =====
-- Which traces have a waterfall that fits into its tracks.
use llmplane.Common.{ℕ, ◌+◌, ◌≤◌, ◌<◌, ◌≡◌, ◌↔◌, some, Text, All, arith}
use llmplane.Display.Waterfall.{Trace, build_waterfall, place, total_of, others_ms}
use llmplane.Display.Explorer.{Bar, bars, bar_of, max_total}

abbrev pub Fits : Bar → Type 0
Fits b = b.margin_left + b.width ≤ b.out_of

module _ (quarter six_percent : ℕ → ℕ) where
  max_total-total_of :
      (id : Text) (t : Trace) → max_total (some (id, t)) ≡ total_of quarter six_percent t
  unfolding max_total total_of
  max_total-total_of id t = ground arith

  -- All the bars of a trace fit into their tracks exactly if the five stages besides the model take
  -- less time than the whole trace. These never take less than 13 ms, whatever the roundings give, so that no
  -- trace of up to 13 ms fits.
  pub bars-Fits :
      (id : Text) (t : Trace)
      → (All Fits (bars quarter six_percent (some (id, t)))
          ↔ (others_ms quarter six_percent t < max_total (some (id, t))))
        × (13 ≤ others_ms quarter six_percent t)
  unfolding bars bar_of build_waterfall place others_ms
  bars-Fits id t =
      let e = max_total-total_of id t in
      ((λ h. omega (arith, h, e), λ h. omega (arith, h, e)), omega arith)
