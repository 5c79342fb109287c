-- ===== src/Pages/Providers.antt =====
-- The buttons of frontend/app/(app)/providers/page.tsx: the wizard and the deletion of a provider. An
-- event on a row that is not on the page, or on a disabled button, changes nothing.
use llmplane.Common.{
  ℕ, ◌+◌, ◌≤◌, Bool, true, false, not, ◌&&◌, any, List, [], ◌∷◌, ◌++◌, Text, text_eq, bit, length,
  if◌then◌else◌, arith,
}
use llmplane.Hooks.Changes.{use_delete_provider}
use llmplane.Pages.Rows.{Provider}
use llmplane.Pages.Screens.{QueryResult, Screen, skeleton, page, providers_screen}

pub record ProvidersPage : Type 0 where
  pub show_form : Bool
  pub is_pending : Bool

unfoldable pub new_page : ProvidersPage
new_page = record { show_form = false; is_pending = false }

-- A click comes with the state of the query behind the page.
pub data Event : Type 0 where
  opens_wizard closes_wizard settles : Event
  deletes : QueryResult (List Provider) → Text → Event

abbrev rows_of : Screen Provider → List Provider
rows_of skeleton = []
rows_of (page p) = p.rows

unfoldable pub is_on_page : QueryResult (List Provider) → Text → Bool
unfolding providers_screen
is_on_page q id = any (λ p. text_eq p.id id) (rows_of (providers_screen q))

-- What is sent is the path of a deletion.
unfoldable pub step : ProvidersPage → Event → ProvidersPage × List Text
unfolding is_on_page use_delete_provider
step p opens_wizard = (record p { show_form = true }, [])
step p closes_wizard = (record p { show_form = false }, [])
step p settles = (record p { is_pending = false }, [])
step p (deletes q id) =
    if not p.is_pending && is_on_page q id
    then (record p { is_pending = true }, (use_delete_provider id).target ∷ [])
    else (p, [])

unfoldable pub run : ProvidersPage → List Event → ProvidersPage × List Text
unfolding step
run p [] = (p, [])
run p (e ∷ es) = let (p1, sent) = step p e in let (p2, later) = run p1 es in (p2, sent ++ later)

settled : List Event → ℕ
settled [] = 0
settled (settles ∷ es) = 1 + settled es
settled (_ ∷ es) = settled es

-- Deletions are sent one at a time: at most one more than have been answered.
run_sent :
    (p : ProvidersPage) (es : List Event) → length (run p es).1 + bit p.is_pending ≤ settled es + 1
unfolding run settled step
run_sent p [] = ground arith
run_sent p (opens_wizard ∷ es) = ground (arith, run_sent (record p { show_form = true }) es)
run_sent p (closes_wizard ∷ es) = ground (arith, run_sent (record p { show_form = false }) es)
run_sent p (settles ∷ es) = ground (arith, run_sent (record p { is_pending = false }) es)
run_sent p (deletes q id ∷ es) =
    ground (arith, run_sent (record p { is_pending = true }) es, run_sent p es)
