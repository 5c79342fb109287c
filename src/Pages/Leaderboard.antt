-- ===== src/Pages/Leaderboard.antt =====
-- The ranking of frontend/app/(app)/leaderboard/page.tsx, over the evaluations of
-- frontend/hooks/useEvaluations.ts. The arithmetic and the order of scores are parameters. A sort with
-- a comparison that is consistent is stable, so that insertion gives its result.
use llmplane.Common.{
  ℕ, zero, suc, ◌+◌, Bool, List, [], ◌∷◌, map, Option, none, some, Text, text_eq, if◌then◌else◌,
}
use llmplane.Display.Status.{Tone, warning, neutral, danger}

-- What the page reads of an evaluation.
pub record Evaluation (Score : Type 0) : Type 0 where
  pub model : Text
  pub score : Score

-- An entry of `modelMap`: `score_sum` is what `avgScore` holds until the end of the loop.
pub record Standing (Score : Type 0) : Type 0 where
  pub name : Text
  pub score_sum : Score
  pub count : ℕ

pub record Row (Score : Type 0) : Type 0 where
  pub row_name : Text
  pub avg_score : Score
  pub row_count : ℕ

-- The tint of a place on the podium.
unfoldable pub podium : ℕ → Option Tone
podium zero = some warning
podium (suc zero) = some neutral
podium (suc (suc zero)) = some danger
podium i = none

module _ {Score : Type 0} (plus : Score → Score → Score) where
  -- One round of the loop; a `Map` keeps the order in which its keys came.
  unfoldable pub add_score : Evaluation Score → List (Standing Score) → List (Standing Score)
  add_score e [] = record { name = e.model; score_sum = e.score; count = 1 } ∷ []
  add_score e (s ∷ ss) =
      let rest = add_score e ss in
      if text_eq s.name e.model
      then record s { score_sum = plus s.score_sum e.score; count = s.count + 1 } ∷ ss
      else s ∷ rest

  unfoldable pub group_from :
      List (Standing Score) → List (Evaluation Score) → List (Standing Score)
  unfolding add_score
  group_from ss [] = ss
  group_from ss (e ∷ es) = group_from (add_score e ss) es

  unfoldable pub model_map : List (Evaluation Score) → List (Standing Score)
  unfolding group_from
  model_map es = group_from [] es

module _ {Score : Type 0} (above : Score → Score → Bool) where
  -- Rows that are above the new one stay before it.
  unfoldable pub insert_row : Row Score → List (Row Score) → List (Row Score)
  insert_row r [] = r ∷ []
  insert_row r (s ∷ ss) =
      let rest = insert_row r ss in if above s.avg_score r.avg_score then s ∷ rest else r ∷ s ∷ ss

  unfoldable pub sort_rows : List (Row Score) → List (Row Score)
  unfolding insert_row
  sort_rows [] = []
  sort_rows (r ∷ rs) = insert_row r (sort_rows rs)

-- The average of a model: `m.avgScore / m.count`.
unfoldable pub averaged : {Score : Type 0} → (Score → ℕ → Score) → Standing Score → Row Score
averaged over s = record {
  row_name = s.name;
  avg_score = over s.score_sum s.count;
  row_count = s.count;
}

unfoldable pub ranked :
    {Score : Type 0}
    → (Score → Score → Score)
    → (Score → ℕ → Score)
    → (Score → Score → Bool)
    → List (Evaluation Score)
    → List (Row Score)
unfolding model_map sort_rows averaged
ranked plus over above es = sort_rows above (map (averaged over) (model_map plus es))
