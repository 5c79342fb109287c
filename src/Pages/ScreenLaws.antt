-- ===== src/Pages/ScreenLaws.antt =====
-- What a page shows of a query, whatever state it is in.
use llmplane.Common.{
  ℕ, ◌+◌, ◌≡◌, refl, Bool, true, false, not, bit, List, [], ◌∷◌, Option, none, some, Text, text,
  is_empty,
}
use llmplane.Pages.Screens.{
  QueryResult, loading, paused, loaded, failed, Notice, Panel, Screen, skeleton, page, is_loading,
  list_panel, list_screen, providers_screen, prompts_screen, experiments_screen, evaluations_screen,
  policies_screen, traces_screen, logs_screen, deployments_screen, benchmarks_screen,
}

abbrev pub notices : Option Notice → ℕ
notices none = 0
notices (some n) = 1

module _ {A : Type 0} where
  -- How many of the skeleton, the error, the notice of emptiness and the rows are on the page.
  abbrev pub parts : Screen A → ℕ
  parts skeleton = 1
  parts (page p) = notices p.notice + bit p.says_empty + bit (not (is_empty p.rows))

  abbrev pub rows_on : Screen A → List A
  rows_on skeleton = []
  rows_on (page p) = p.rows

  -- Rows of an earlier success behind an error.
  abbrev pub has_old_rows : QueryResult (List A) → Bool
  has_old_rows (failed e (some xs)) = not (is_empty xs)
  has_old_rows q = false

  pub rows_shown :
      (xs : List A)
      → (rows_on (providers_screen (loaded xs)) ≡ xs)
        × (rows_on (prompts_screen (loaded xs)) ≡ xs)
        × (rows_on (experiments_screen (loaded xs)) ≡ xs)
        × (rows_on (evaluations_screen (loaded xs)) ≡ xs)
        × (rows_on (policies_screen (loaded xs)) ≡ xs)
        × (rows_on (traces_screen (loaded xs)) ≡ xs)
        × (rows_on (logs_screen (loaded xs)) ≡ xs)
        × (rows_on (deployments_screen (loaded xs)) ≡ xs)
  unfolding providers_screen prompts_screen experiments_screen evaluations_screen policies_screen
      traces_screen logs_screen deployments_screen
  rows_shown [] = (refl, refl, refl, refl, refl, refl, refl, refl)
  rows_shown (x ∷ xs) = (refl, refl, refl, refl, refl, refl, refl, refl)

  list_screen-parts : (title : Text) (q : QueryResult (List A)) → parts (list_screen title q) ≡ 1
  unfolding list_screen
  list_screen-parts title loading = refl
  list_screen-parts title paused = refl
  list_screen-parts title (loaded []) = refl
  list_screen-parts title (loaded (x ∷ xs)) = refl
  list_screen-parts title (failed e old) = refl

  logs_screen-parts : (q : QueryResult (List A)) → parts (logs_screen q) ≡ 1
  unfolding logs_screen
  logs_screen-parts loading = refl
  logs_screen-parts paused = refl
  logs_screen-parts (loaded []) = refl
  logs_screen-parts (loaded (x ∷ xs)) = refl
  logs_screen-parts (failed e old) = refl

  deployments_screen-parts :
      (q : QueryResult (List A)) → parts (deployments_screen q) ≡ 1 + bit (has_old_rows q)
  unfolding deployments_screen
  deployments_screen-parts loading = refl
  deployments_screen-parts paused = refl
  deployments_screen-parts (loaded []) = refl
  deployments_screen-parts (loaded (x ∷ xs)) = refl
  deployments_screen-parts (failed e none) = refl
  deployments_screen-parts (failed e (some [])) = refl
  deployments_screen-parts (failed e (some (x ∷ xs))) = refl

  -- Whatever the state of its query, a page shows exactly one of the four, but that the page of
  -- deployments shows the rows of an earlier success under an error; and of data each page shows the
  -- rows, all of them and in order.
  pub screens_exclusive :
      (q : QueryResult (List A)) (xs : List A)
      → (parts (providers_screen q) ≡ 1)
        × (parts (prompts_screen q) ≡ 1)
        × (parts (experiments_screen q) ≡ 1)
        × (parts (evaluations_screen q) ≡ 1)
        × (parts (policies_screen q) ≡ 1)
        × (parts (traces_screen q) ≡ 1)
        × (parts (logs_screen q) ≡ 1)
        × (parts (deployments_screen q) ≡ 1 + bit (has_old_rows q))
        × (rows_on (providers_screen (loaded xs)) ≡ xs)
        × (rows_on (prompts_screen (loaded xs)) ≡ xs)
        × (rows_on (experiments_screen (loaded xs)) ≡ xs)
        × (rows_on (evaluations_screen (loaded xs)) ≡ xs)
        × (rows_on (policies_screen (loaded xs)) ≡ xs)
        × (rows_on (traces_screen (loaded xs)) ≡ xs)
        × (rows_on (logs_screen (loaded xs)) ≡ xs)
        × (rows_on (deployments_screen (loaded xs)) ≡ xs)
  unfolding providers_screen prompts_screen experiments_screen evaluations_screen policies_screen
      traces_screen
  screens_exclusive q xs = (
    list_screen-parts (text "Could not load providers") q,
    list_screen-parts (text "Could not load prompts") q,
    list_screen-parts (text "Could not load experiments") q,
    list_screen-parts (text "Could not load evaluations") q,
    list_screen-parts (text "Could not load policies") q,
    list_screen-parts (text "Could not load traces") q,
    logs_screen-parts q,
    deployments_screen-parts q,
    (rows_shown xs).0,
    (rows_shown xs).1,
    (rows_shown xs).2,
    (rows_shown xs).3,
    (rows_shown xs).4,
    (rows_shown xs).5,
    (rows_shown xs).6,
    (rows_shown xs).7,
  )

abbrev pub no_rows_yet : {A : Type 0} → Panel A
no_rows_yet = record { notice = none; says_empty = true; rows = [] }

-- Once the datasets do not load any more, the panel of runs says that there are none for as long as the
-- runs load, and the other way round.
hasty_panels :
    {A B : Type 0} (datasets : QueryResult (List A)) (runs : QueryResult (List B))
    → is_loading datasets ≡ false
    → is_loading runs ≡ false
    → (benchmarks_screen {B = B} datasets loading
        ≡ some (list_panel (text "Could not load datasets") datasets, no_rows_yet))
      × (benchmarks_screen {A = A} loading runs
          ≡ some (no_rows_yet, list_panel (text "Could not load runs") runs))
unfolding benchmarks_screen
hasty_panels datasets runs h k = (rw h, rw k)
