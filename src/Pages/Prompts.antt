-- ===== src/Pages/Prompts.antt =====
-- The buttons of frontend/app/(app)/prompts/page.tsx that delete a prompt. An event on a row that is
-- not on the page, or on a disabled button, changes nothing.
use llmplane.Common.{
  ℕ, ◌+◌, ◌≤◌, Bool, true, false, not, ◌&&◌, any, List, [], ◌∷◌, ◌++◌, Text, text_eq, bit, length,
  if◌then◌else◌, arith,
}
use llmplane.Hooks.Changes.{use_delete_prompt}
use llmplane.Pages.Rows.{Prompt}
use llmplane.Pages.Screens.{QueryResult, Screen, skeleton, page, prompts_screen}

pub record PromptsPage : Type 0 where
  pub is_pending : Bool

-- A click comes with the state of the query behind the page.
pub data Event : Type 0 where
  settles : Event
  deletes : QueryResult (List Prompt) → Text → Event

abbrev rows_of : Screen Prompt → List Prompt
rows_of skeleton = []
rows_of (page p) = p.rows

unfoldable pub is_on_page : QueryResult (List Prompt) → Text → Bool
unfolding prompts_screen
is_on_page q id = any (λ p. text_eq p.id id) (rows_of (prompts_screen q))

-- What is sent is the path of a deletion.
unfoldable pub step : PromptsPage → Event → PromptsPage × List Text
unfolding is_on_page use_delete_prompt
step p settles = (record { is_pending = false }, [])
step p (deletes q id) =
    if not p.is_pending && is_on_page q id
    then (record { is_pending = true }, (use_delete_prompt id).target ∷ [])
    else (p, [])

unfoldable pub run : PromptsPage → List Event → PromptsPage × List Text
unfolding step
run p [] = (p, [])
run p (e ∷ es) = let (p1, sent) = step p e in let (p2, later) = run p1 es in (p2, sent ++ later)

settled : List Event → ℕ
settled [] = 0
settled (settles ∷ es) = 1 + settled es
settled (deletes q id ∷ es) = settled es

-- Deletions are sent one at a time: at most one more than have been answered.
run_sent :
    (p : PromptsPage) (es : List Event) → length (run p es).1 + bit p.is_pending ≤ settled es + 1
unfolding run settled step
run_sent p [] = ground arith
run_sent p (settles ∷ es) = ground (arith, run_sent (record { is_pending = false }) es)
run_sent p (deletes q id ∷ es) =
    ground (arith, run_sent (record { is_pending = true }) es, run_sent p es)
