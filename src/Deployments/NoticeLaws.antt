-- ===== src/Deployments/NoticeLaws.antt =====
-- When the list of deployments warns of rows that are stuck.
use llmplane.Common.{
  ℕ, ◌+◌, ◌<◌, ◌≡◌, ◌↔◌, refl, true, List, [], ◌∷◌, Option, none, some, Text, keep_if, is_empty,
  All, Bool-cases, Option-cases, inl, inr, arith,
}
use llmplane.Deployments.Model.{Deployment, is_pending}
use llmplane.Deployments.Screens.{is_stalled, stalled_notice, stall_threshold_ms}

-- Pending for longer than the threshold.
abbrev pub IsStuck : {V : Type 0} → (Text → Option ℕ) → ℕ → Deployment V → Type 0
IsStuck get_time now d =
    (is_pending d.status ≡ true)
    × (t : ℕ) × (get_time d.created_at ≡ some t)
    × (t + stall_threshold_ms < now)

module _ {V : Type 0} (get_time : Text → Option ℕ) (now : ℕ) where
  is_stalled-IsStuck :
      (d : Deployment V) → is_stalled get_time now d ≡ true → IsStuck get_time now d
  unfolding is_stalled
  is_stalled-IsStuck d h = elim (Option-cases (get_time d.created_at)) [
    | inl e ↦ absurd (never e)
    | inr (t, e) ↦ (ground (arith, h), t, e, ground (arith, h, e))
  ]
    where
      never : get_time d.created_at ≡ none → ⊥
      never e = ground (arith, h, e)

  IsStuck-is_stalled :
      (d : Deployment V) → IsStuck get_time now d → is_stalled get_time now d ≡ true
  unfolding is_stalled
  IsStuck-is_stalled d (p, t, e, l) = ground (arith, p, e, l)

  filtered_away :
      (ds : List (Deployment V))
      → is_empty (keep_if (is_stalled get_time now) ds) ≡ true
      → All (λ d. IsStuck get_time now d → ⊥) ds
  filtered_away [] h = tt
  filtered_away (d ∷ ds) h =
      ((λ k. ground (arith, h, IsStuck-is_stalled d k)), filtered_away ds (ground (arith, h)))

  filtered_back :
      (ds : List (Deployment V))
      → All (λ d. IsStuck get_time now d → ⊥) ds
      → is_empty (keep_if (is_stalled get_time now) ds) ≡ true
  filtered_back [] h = refl
  filtered_back (d ∷ ds) (n, h) = elim (Bool-cases (is_stalled get_time now d)) [
    | inl e ↦ absurd (n (is_stalled-IsStuck d e))
    | inr e ↦ ground (arith, e, filtered_back ds h)
  ]

  -- The list warns of stalled deployments exactly if there is one that is pending and whose creation, if
  -- its date can be read, lies back more than five minutes.
  stalled_notice_iff :
      (show : ℕ → Text) (ds : List (Deployment V))
      → (stalled_notice get_time show now ds ≡ none) ↔ All (λ d. IsStuck get_time now d → ⊥) ds
  unfolding stalled_notice
  stalled_notice_iff show ds =
      (λ h. filtered_away ds (ground (arith, h)), λ h. ground (arith, filtered_back ds h))
