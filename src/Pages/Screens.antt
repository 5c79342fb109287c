-- ===== src/Pages/Screens.antt =====
-- What the pages of frontend/app/(app) show of their queries: the skeleton, an error, the notice that
-- there is nothing, or rows.
use llmplane.Common.{
  Bool, true, false, not, ◌&&◌, List, [], Option, none, some, Text, text, is_empty, if◌then◌else◌,
}
use llmplane.Widgets.Cards.{Thrown, error_message}

-- The states of a query of TanStack Query: it loads for the first time, it waits for the network with
-- nothing loaded, it has data, or it has failed, perhaps with data of an earlier success.
pub data QueryResult (A : Type 0) : Type 0 where
  loading paused : QueryResult A
  loaded : A → QueryResult A
  failed : Thrown → Option A → QueryResult A

-- The title and the message of an `ErrorState`.
pub record Notice : Type 0 where
  pub title : Text
  pub message : Text

pub record Panel (A : Type 0) : Type 0 where
  pub notice : Option Notice
  pub says_empty : Bool
  pub rows : List A

pub data Screen (A : Type 0) : Type 0 where
  skeleton : Screen A
  page : Panel A → Screen A

module _ {A : Type 0} where
  unfoldable pub is_loading : QueryResult A → Bool
  is_loading loading = true
  is_loading q = false

  unfoldable pub is_error : QueryResult A → Bool
  is_error (failed e old) = true
  is_error q = false

  unfoldable pub error_notice : Text → QueryResult A → Option Notice
  unfolding error_message
  error_notice title (failed e old) = some (record { title = title; message = error_message e })
  error_notice title q = none

  unfoldable pub data_of : QueryResult A → Option A
  data_of (loaded a) = some a
  data_of (failed e old) = old
  data_of q = none

-- `data || []`.
abbrev or_no_rows {ℓ} : {A : Type ℓ} → Option (List A) → List A
or_no_rows none = []
or_no_rows (some xs) = xs

module _ {A : Type 0} where
  -- The notice of an error, or else the notice that there are no rows, or else the rows.
  unfoldable pub list_panel : Text → QueryResult (List A) → Panel A
  unfolding is_error error_notice data_of
  list_panel title q =
      let list = or_no_rows (data_of q) in
      record {
        notice = error_notice title q;
        says_empty = not (is_error q) && is_empty list;
        rows = if not (is_error q) && not (is_empty list) then list else [];
      }

  unfoldable pub list_screen : Text → QueryResult (List A) → Screen A
  unfolding is_loading list_panel
  list_screen title q = if is_loading q then skeleton else page (list_panel title q)

  unfoldable pub providers_screen : QueryResult (List A) → Screen A
  unfolding list_screen
  providers_screen q = list_screen (text "Could not load providers") q

  unfoldable pub prompts_screen : QueryResult (List A) → Screen A
  unfolding list_screen
  prompts_screen q = list_screen (text "Could not load prompts") q

  unfoldable pub experiments_screen : QueryResult (List A) → Screen A
  unfolding list_screen
  experiments_screen q = list_screen (text "Could not load experiments") q

  unfoldable pub evaluations_screen : QueryResult (List A) → Screen A
  unfolding list_screen
  evaluations_screen q = list_screen (text "Could not load evaluations") q

  unfoldable pub policies_screen : QueryResult (List A) → Screen A
  unfolding list_screen
  policies_screen q = list_screen (text "Could not load policies") q

  unfoldable pub traces_screen : QueryResult (List A) → Screen A
  unfolding list_screen
  traces_screen q = list_screen (text "Could not load traces") q

  -- The error, or else the rows and, if there are none, the notice.
  unfoldable pub logs_screen : QueryResult (List A) → Screen A
  unfolding is_loading is_error error_notice data_of
  logs_screen q =
      let entries = or_no_rows (data_of q) in
      if is_loading q
      then skeleton
      else page (
          if is_error q
          then record {
            notice = error_notice (text "Could not load logs") q;
            says_empty = false;
            rows = [];
          }
          else record { notice = none; says_empty = is_empty entries; rows = entries })

  -- The rows that are left of an earlier success stay under the error.
  unfoldable pub deployments_screen : QueryResult (List A) → Screen A
  unfolding is_loading is_error error_notice data_of
  deployments_screen q =
      let list = or_no_rows (data_of q) in
      if is_loading q
      then skeleton
      else page (record {
        notice = error_notice (text "Could not load deployments") q;
        says_empty = not (is_error q) && is_empty list;
        rows = list;
      })

-- The panels of datasets and of runs.
unfoldable pub benchmarks_screen :
    {A B : Type 0} → QueryResult (List A) → QueryResult (List B) → Option (Panel A × Panel B)
unfolding is_loading list_panel
benchmarks_screen datasets runs =
    if is_loading datasets && is_loading runs
    then none
    else some (
      list_panel (text "Could not load datasets") datasets,
      list_panel (text "Could not load runs") runs,
    )
