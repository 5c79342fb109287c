-- ===== src/Pages/Examples.antt =====
-- The theorems of the pages at concrete entries and evaluations.
use llmplane.Common.{
  ℕ, zero, suc, refl, ◌≢◌, bit, Option, Text, ◌+◌, ◌/◌, ◌≡◌, ◌↔◌, Bool, List, [], ◌∷◌, map, none,
  some, text, ltb, Has, arith,
}
use llmplane.Pages.Export.{LogEntry, keys, cells, csv_text}
use llmplane.Pages.ExportLaws.{read_csv, read_csv-csv_text}
use llmplane.Pages.Leaderboard.{Evaluation, Row, ranked}
use llmplane.Pages.LeaderboardSums.{tally, evaluations_of, IsAverage}
use llmplane.Pages.LeaderboardLaws.{IsOrder, IsRanked, ranked-IsRanked}
use llmplane.Api.Json.{Json, null}
use llmplane.Api.Fetch.{Result, value, finish, is_ok, ok_response, failed_response}
use llmplane.Widgets.Cards.{error}
use llmplane.Pages.Screens.{
  QueryResult, loaded, failed, page, providers_screen, prompts_screen, experiments_screen,
  evaluations_screen, policies_screen, traces_screen, logs_screen, deployments_screen,
}
use llmplane.Pages.ScreenLaws.{parts, rows_on, has_old_rows, screens_exclusive}
use llmplane.Pages.RetryLaws.{outcome, of_two, error_text, error_panel, query_result, page_settles}
use llmplane.Display.Explorer.{page_query}
use llmplane.Hooks.Queries.{Query, key}
use llmplane.Pages.LogScreen.{LogsPage, new_page, types, picks_level, selects, run, page_key}
use llmplane.Pages.LogScreenLaws.{filters_apart}
use llmplane.Pages.TestRetryer.{test_retryer}

-- A message with a quote, a comma and a line feed.
abbrev failure : LogEntry
failure = record {
  timestamp = some (text "2025-01-01T00:00:00Z");
  level = some (text "ERROR");
  service = none;
  request_id = none;
  trace_id = none;
  provider = some (text "openai");
  model = none;
  message = some (b'"' ∷ b',' ∷ b'\n' ∷ text "down");
}

read_csv-csv_text_example :
    read_csv (csv_text (failure ∷ failure ∷ [])) ≡ keys ∷ map cells (failure ∷ failure ∷ [])
read_csv-csv_text_example = read_csv-csv_text (failure ∷ failure ∷ [])

abbrev evaluations : List (Evaluation ℕ)
evaluations =
    record { model = text "a"; score = 4 }
    ∷ record { model = text "b"; score = 9 }
    ∷ record { model = text "a"; score = 6 }
    ∷ []

abbrev add : ℕ → ℕ → ℕ
add a b = a + b

abbrev over : ℕ → ℕ → ℕ
over a n = a / n

abbrev above : ℕ → ℕ → Bool
above a b = ltb b a

above-IsOrder : IsOrder above
above-IsOrder = record {
  asym = λ a b h. ground (arith, h);
  trans = λ a b c h k. ground (arith, h, k);
}

ranked-IsRanked_example :
    IsRanked above (ranked add over above evaluations)
    × ((r : Row ℕ)
        → Has r (ranked add over above evaluations)
          ↔ IsAverage add over (tally add none (evaluations_of r.row_name evaluations)) r)
ranked-IsRanked_example = ranked-IsRanked add over above above-IsOrder evaluations

abbrev two_rows : List ℕ
two_rows = 1 ∷ 2 ∷ []

abbrev outage : QueryResult (List ℕ)
outage = failed (error (text "down")) (some (1 ∷ []))

-- The backend goes down once the rows have been loaded.
screens_exclusive_example :
    (parts (providers_screen outage) ≡ 1)
    × (parts (prompts_screen outage) ≡ 1)
    × (parts (experiments_screen outage) ≡ 1)
    × (parts (evaluations_screen outage) ≡ 1)
    × (parts (policies_screen outage) ≡ 1)
    × (parts (traces_screen outage) ≡ 1)
    × (parts (logs_screen outage) ≡ 1)
    × (parts (deployments_screen outage) ≡ 1 + bit (has_old_rows outage))
    × (rows_on (providers_screen (loaded two_rows)) ≡ two_rows)
    × (rows_on (prompts_screen (loaded two_rows)) ≡ two_rows)
    × (rows_on (experiments_screen (loaded two_rows)) ≡ two_rows)
    × (rows_on (evaluations_screen (loaded two_rows)) ≡ two_rows)
    × (rows_on (policies_screen (loaded two_rows)) ≡ two_rows)
    × (rows_on (traces_screen (loaded two_rows)) ≡ two_rows)
    × (rows_on (logs_screen (loaded two_rows)) ≡ two_rows)
    × (rows_on (deployments_screen (loaded two_rows)) ≡ two_rows)
screens_exclusive_example = screens_exclusive outage two_rows

abbrev parse_null : Text → Option Json
parse_null s = some null

abbrev read_two : Json → List ℕ
read_two v = 1 ∷ 2 ∷ []

-- A gateway error, and then a success.
abbrev responses : ℕ → ℕ × Text × Text
responses zero = (502, text "Bad Gateway", text "nginx")
responses (suc n) = (200, text "OK", text "null")

abbrev outcomes : ℕ → Result
outcomes n = outcome parse_null responses n

abbrev no_data : Text
no_data = text "data is undefined"

page_settles_example :
    let shown = providers_screen (query_result no_data read_two (test_retryer.settle outcomes 0)) in
    (test_retryer.settle outcomes 0 ≡ of_two (outcomes 0) (outcomes 1))
    × (of_two (outcomes 0) (outcomes 1) ≡ value (some null) → rows_on shown ≡ 1 ∷ 2 ∷ [])
    × (of_two (outcomes 0) (outcomes 1) ≡ value none
        → shown ≡ page (error_panel (text "Could not load providers") no_data))
    × (error_text (of_two (outcomes 0) (outcomes 1)) ≡ some (text "x")
        → (shown ≡ page (error_panel (text "Could not load providers") (text "x")))
          × (text "x" ≢ []))
page_settles_example =
    page_settles test_retryer parse_null no_data read_two responses null (text "x")

-- That run does end with the rows.
second_succeeds : of_two (outcomes 0) (outcomes 1) ≡ value (some null)
unfolding finish is_ok ok_response failed_response
second_succeeds = refl

abbrev searching : LogsPage
searching = run new_page (types (text "x") ∷ types (text "boom") ∷ picks_level (text "ERROR") ∷ [])

-- The same filters in another order, with a level that is not offered and a row selected.
abbrev same_search : LogsPage
same_search = run new_page (
    picks_level (text "ERROR")
    ∷ picks_level (text "LOUD")
    ∷ types (text "boom")
    ∷ selects failure
    ∷ [])

filters_apart_example :
    (page_key searching ≡ page_key same_search
      → (searching.q ≡ same_search.q)
        × (searching.level ≡ same_search.level)
        × (searching.service ≡ same_search.service)
        × (searching.live ≡ same_search.live))
    × (key (Query.traces (some (page_query (text "gpt") [])))
          ≡ key (Query.traces (some (page_query (text "gpt") (text "error"))))
        → (text "gpt" ≡ text "gpt") × ([] ≡ text "error"))
filters_apart_example =
    filters_apart searching same_search (text "gpt") [] (text "gpt") (text "error")
