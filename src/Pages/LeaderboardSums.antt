-- ===== src/Pages/LeaderboardSums.antt =====
-- What the loop of the ranking keeps for each model, against adding up the model's evaluations alone.
use llmplane.Common.{
  ℕ, ◌+◌, ◌≡◌, ◌↔◌, inl, inr, refl, sym, ap, ◌∙◌, List, [], ◌∷◌, map, Option, none, some, Text,
  text_eq, text_eq_iff, text_eq_refl, keep_if, Has, if◌then◌else◌, Bool-cases, arith,
}
use llmplane.Pages.Leaderboard.{
  Evaluation, Standing, Row, add_score, group_from, model_map, averaged,
}

module _ {Score : Type 0} where
  abbrev pub find : Text → List (Standing Score) → Option (Score × ℕ)
  find m [] = none
  find m (s ∷ ss) = if text_eq s.name m then some (s.score_sum, s.count) else find m ss

  -- The evaluations of a model.
  abbrev pub evaluations_of : Text → List (Evaluation Score) → List (Evaluation Score)
  evaluations_of m es = keep_if (λ e. text_eq e.model m) es

module _ {Score : Type 0} (plus : Score → Score → Score) where
  abbrev pub tally : Option (Score × ℕ) → List (Evaluation Score) → Option (Score × ℕ)
  tally found [] = found
  tally none (e ∷ es) = tally (some (e.score, 1)) es
  tally (some (total, n)) (e ∷ es) = tally (some (plus total e.score, n + 1)) es

  find-add_score :
      (m : Text) (e : Evaluation Score) (ss : List (Standing Score))
      → find m (add_score plus e ss)
        ≡ (if text_eq e.model m then tally (find m ss) (e ∷ []) else find m ss)
  unfolding add_score
  find-add_score m e [] = ground arith
  find-add_score m e (s ∷ ss) = ground (
    arith,
    text_eq_iff s.name e.model,
    text_eq_iff s.name m,
    text_eq_iff e.model m,
    find-add_score m e ss,
  )

  tally-cons :
      (found : Option (Score × ℕ)) (e : Evaluation Score) (es : List (Evaluation Score))
      → tally (tally found (e ∷ [])) es ≡ tally found (e ∷ es)
  tally-cons none e es = refl
  tally-cons (some (total, n)) e es = refl

  find-group_from :
      (m : Text) (ss : List (Standing Score)) (es : List (Evaluation Score))
      → find m (group_from plus ss es) ≡ tally (find m ss) (evaluations_of m es)
  unfolding group_from
  find-group_from m ss [] = refl
  find-group_from m ss (e ∷ es) =
      find-group_from m (add_score plus e ss) es ∙ elim (Bool-cases (text_eq e.model m)) [
        | inl h ↦ rw (h) (
            ap (λ f. tally f (evaluations_of m es)) (find-add_score m e ss ∙ rw (h) refl)
            ∙ tally-cons (find m ss) e (evaluations_of m es))
        | inr h ↦
            rw (h) (ap (λ f. tally f (evaluations_of m es)) (find-add_score m e ss ∙ rw (h) refl))
      ]

  -- What the loop finds for a model is what adding up its evaluations alone gives, in their order: the
  -- sum of their scores and their number, or nothing if it has none.
  find-model_map :
      (m : Text) (es : List (Evaluation Score))
      → find m (model_map plus es) ≡ tally none (evaluations_of m es)
  unfolding model_map
  find-model_map m es = find-group_from m [] es

  -- No model has two entries.
  abbrev IsDistinct : List (Standing Score) → Type 0
  IsDistinct [] = Unit
  IsDistinct (s ∷ ss) = (find s.name ss ≡ none) × IsDistinct ss

  add_score-IsDistinct :
      (e : Evaluation Score) (ss : List (Standing Score))
      → IsDistinct ss
      → IsDistinct (add_score plus e ss)
  unfolding add_score
  add_score-IsDistinct e [] h = (refl, tt)
  add_score-IsDistinct e (s ∷ ss) (n, h) = elim (Bool-cases (text_eq s.name e.model)) [
    | inl k ↦ rw k (n, h)
    | inr k ↦ rw k (
      find-add_score s.name e ss
          ∙ ground (arith, k, n, text_eq_iff s.name e.model, text_eq_iff e.model s.name),
      add_score-IsDistinct e ss h,
    )
  ]

  group_from-IsDistinct :
      (ss : List (Standing Score)) (es : List (Evaluation Score))
      → IsDistinct ss
      → IsDistinct (group_from plus ss es)
  unfolding group_from
  group_from-IsDistinct ss [] h = h
  group_from-IsDistinct ss (e ∷ es) h =
      group_from-IsDistinct (add_score plus e ss) es (add_score-IsDistinct e ss h)

  module _ (over : Score → ℕ → Score) where
    -- A row with the average of a sum, and the number of its scores.
    abbrev pub IsAverage : Option (Score × ℕ) → Row Score → Type 0
    IsAverage none r = ⊥
    IsAverage (some (total, n)) r = (r.avg_score ≡ over total n) × (r.row_count ≡ n)

    averaged-IsAverage :
        (r : Row Score) (s : Standing Score) (ss : List (Standing Score))
        → r ≡ averaged over s
        → IsAverage (find r.row_name (s ∷ ss)) r
    unfolding averaged
    averaged-IsAverage r s ss e = rw (e, text_eq_refl) (refl, refl)

    IsAverage-averaged :
        (r : Row Score) (s : Standing Score)
        → s.name ≡ r.row_name
        → IsAverage (some (s.score_sum, s.count)) r
        → r ≡ averaged over s
    unfolding averaged
    IsAverage-averaged r s n (a, c) = rows_eq (sym n) a c
      where
        row : Text → Score → ℕ → Row Score
        row n a c = record { row_name = n; avg_score = a; row_count = c }

        rows_eq :
            {n m : Text} {a b : Score} {c d : ℕ} → n ≡ m → a ≡ b → c ≡ d → row n a c ≡ row m b d
        rows_eq h k l = rw (h, k, l)

    absent : (o : Option (Score × ℕ)) (r : Row Score) → o ≡ none → IsAverage o r → ⊥
    absent none r e h = h
    absent (some found) r e h = cc

    Has-averaged :
        (r : Row Score) (ss : List (Standing Score))
        → IsDistinct ss
        → Has r (map (averaged over) ss) ↔ IsAverage (find r.row_name ss) r
    Has-averaged r [] h = ((λ k. k), (λ k. k))
    Has-averaged r (s ∷ ss) (n, h) =
        let (to, from) = Has-averaged r ss h in
        elim (Bool-cases (text_eq s.name r.row_name)) [
          | inl e ↦
              let same : s.name ≡ r.row_name = (text_eq_iff s.name r.row_name).0 e in
              (
                (λ k. elim k [
                  | inl here ↦ averaged-IsAverage r s ss here
                  | inr there ↦ absurd (
                      absent (find r.row_name ss) r (ap (λ m. find m ss) (sym same) ∙ n) (to there))
                ]),
                rw e (λ k. inl (IsAverage-averaged r s same k)),
              )
          | inr e ↦ (
            (λ k. elim k [
              | inl here ↦ averaged-IsAverage r s ss here
              | inr there ↦ rw e (to there)
            ]),
            rw e (λ k. inr (from k)),
          )
        ]

    -- The rows of the models are those whose values come of adding up the evaluations of that model.
    pub Has-model_map :
        (r : Row Score) (es : List (Evaluation Score))
        → Has r (map (averaged over) (model_map plus es))
          ↔ IsAverage (tally none (evaluations_of r.row_name es)) r
    unfolding model_map
    Has-model_map r es =
        rw (← find-model_map r.row_name es)
          (Has-averaged r (model_map plus es) (group_from-IsDistinct [] es tt))
