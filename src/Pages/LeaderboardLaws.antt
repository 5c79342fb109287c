-- ===== src/Pages/LeaderboardLaws.antt =====
-- The ranking has one row for each model, with the sum and the number of its evaluations, best first.
use llmplane.Common.{
  ℕ, ◌≡◌, ◌↔◌, inl, inr, Bool, true, false, List, [], ◌∷◌, map, none, Has, All, Bool-cases,
}
use llmplane.Pages.LeaderboardSums.{tally, evaluations_of, IsAverage, Has-model_map}
use llmplane.Pages.Leaderboard.{Evaluation, Row, model_map, insert_row, sort_rows, averaged, ranked}

-- A strict order of scores, in which not being above is transitive, as for numbers.
pub record IsOrder {Score : Type 0} (above : Score → Score → Bool) : Type 0 where
  pub asym : (a b : Score) → above a b ≡ true → above b a ≡ false
  pub trans : (a b c : Score) → above a b ≡ false → above b c ≡ false → above a c ≡ false

module _ {Score : Type 0} (above : Score → Score → Bool) where
  abbrev pub Below : Row Score → Row Score → Type 0
  Below r s = above s.avg_score r.avg_score ≡ false

  -- No row is above one that comes before it.
  abbrev pub IsRanked : List (Row Score) → Type 0
  IsRanked [] = Unit
  IsRanked (r ∷ rs) = All (Below r) rs × IsRanked rs

  All-insert_row :
      (P : Row Score → Type 0) (r : Row Score) (ss : List (Row Score))
      → P r
      → All P ss
      → All P (insert_row above r ss)
  unfolding insert_row
  All-insert_row P r [] p h = (p, tt)
  All-insert_row P r (s ∷ ss) p (q, h) = elim (Bool-cases (above s.avg_score r.avg_score)) [
    | inl e ↦ rw e (q, All-insert_row P r ss p h)
    | inr e ↦ rw e (p, (q, h))
  ]

  Has-insert_row :
      (x r : Row Score) (ss : List (Row Score)) → Has x (insert_row above r ss) ↔ Has x (r ∷ ss)
  unfolding insert_row
  Has-insert_row x r [] = ((λ h. h), (λ h. h))
  Has-insert_row x r (s ∷ ss) = elim (Bool-cases (above s.avg_score r.avg_score)) [
    | inl e ↦ rw e (swapped (Has-insert_row x r ss))
    | inr e ↦ rw e ((λ h. h), (λ h. h))
  ]
    where
      swapped :
          (Has x (insert_row above r ss) ↔ Has x (r ∷ ss))
          → Has x (s ∷ insert_row above r ss) ↔ Has x (r ∷ s ∷ ss)
      swapped (to, from) = (there to, back from)
        where
          there :
              (Has x (insert_row above r ss) → Has x (r ∷ ss))
              → Has x (s ∷ insert_row above r ss)
              → Has x (r ∷ s ∷ ss)
          there to (inl e) = inr (inl e)
          there to (inr h) = elim (to h) [ inl e ↦ inl e | inr k ↦ inr (inr k) ]

          back :
              (Has x (r ∷ ss) → Has x (insert_row above r ss))
              → Has x (r ∷ s ∷ ss)
              → Has x (s ∷ insert_row above r ss)
          back from (inl e) = inr (from (inl e))
          back from (inr (inl e)) = inl e
          back from (inr (inr h)) = inr (from (inr h))

  Has-sort_rows : (x : Row Score) (rs : List (Row Score)) → Has x (sort_rows above rs) ↔ Has x rs
  unfolding sort_rows
  Has-sort_rows x [] = ((λ h. h), (λ h. h))
  Has-sort_rows x (r ∷ rs) =
      let (to, from) = Has-sort_rows x rs in
      let (out, into) = Has-insert_row x r (sort_rows above rs) in
      (
        (λ h. elim (out h) [ inl e ↦ inl e | inr k ↦ inr (to k) ]),
        (λ h. into (elim h [ inl e ↦ inl e | inr k ↦ inr (from k) ])),
      )

module _ {Score : Type 0} (above : Score → Score → Bool) (o : IsOrder above) where
  All-Below :
      (r s : Row Score) (ss : List (Row Score))
      → above s.avg_score r.avg_score ≡ false
      → All (Below above s) ss
      → All (Below above r) ss
  All-Below r s [] e h = tt
  All-Below r s (t ∷ ss) e (k, h) =
      (o.trans t.avg_score s.avg_score r.avg_score k e, All-Below r s ss e h)

  insert_row-IsRanked :
      (r : Row Score) (ss : List (Row Score))
      → IsRanked above ss
      → IsRanked above (insert_row above r ss)
  unfolding insert_row
  insert_row-IsRanked r [] h = (tt, tt)
  insert_row-IsRanked r (s ∷ ss) (b, h) = elim (Bool-cases (above s.avg_score r.avg_score)) [
    | inl e ↦ rw e (
      All-insert_row above (Below above s) r ss (o.asym s.avg_score r.avg_score e) b,
      insert_row-IsRanked r ss h,
    )
    | inr e ↦ rw e ((e, All-Below r s ss e b), (b, h))
  ]

  sort_rows-IsRanked : (rs : List (Row Score)) → IsRanked above (sort_rows above rs)
  unfolding sort_rows
  sort_rows-IsRanked [] = tt
  sort_rows-IsRanked (r ∷ rs) = insert_row-IsRanked r (sort_rows above rs) (sort_rows-IsRanked rs)

-- No row of the table is above one that comes before it, if scores have an order as numbers have, and a
-- row is in the table exactly if its model has evaluations, its average is the sum of their scores, added up
-- in their order, over their number, and its count is that number.
pub ranked-IsRanked :
    {Score : Type 0} (plus : Score → Score → Score) (over : Score → ℕ → Score)
    (above : Score → Score → Bool)
    → IsOrder above
    → (es : List (Evaluation Score))
    → IsRanked above (ranked plus over above es)
      × ((r : Row Score)
          → Has r (ranked plus over above es)
            ↔ IsAverage plus over (tally plus none (evaluations_of r.row_name es)) r)
unfolding ranked
ranked-IsRanked plus over above o es =
    let rows = map (averaged over) (model_map plus es) in
    (
      sort_rows-IsRanked above o rows,
      λ r.
          let (out, into) = Has-sort_rows above r rows in
          let (to, from) = Has-model_map plus over r es in
          ((λ h. to (out h)), (λ h. into (from h))),
    )
