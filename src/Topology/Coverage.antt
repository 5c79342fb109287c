-- ===== src/Topology/Coverage.antt =====
-- Which rows the map shows, and when it counts as empty.
use llmplane.Common.{
  ℕ, suc, ◌≡◌, refl, ap, ◌∙◌, ◌≢◌, ◌↔◌, ◌⊎◌, inl, inr, Bool, true, ◌&&◌, List, [], ◌∷◌, ◌++◌, map,
  Option, Text, Has, Has-append_left, Has-append_right, Has-map, Bool-cases, keep_if, is_empty,
  arith,
}
use mathlib.Core.List.{map-append, map-map}
use llmplane.Topology.Types.{InfraNode, Numbers, ProviderLike, DeploymentLike, DashboardSummaryLike}
use llmplane.Topology.Build.{
  ModelNode, is_local, is_model_kind, is_cloud, is_covered, is_fallback, dep_id, prov_id,
  cloud_node, deployment_node, local_node, placed, model_nodes, build_topology, backbone,
}
use llmplane.Topology.Loop.{placed_from, model_part, nodes-append}
use llmplane.Topology.Graph.{node_ids, node_ids-placed_from}

module _ {A : Type 0} (p : A → Bool) where
  pub keep_if-append : (xs ys : List A) → keep_if p (xs ++ ys) ≡ keep_if p xs ++ keep_if p ys
  keep_if-append [] ys = refl
  keep_if-append (x ∷ xs) ys = elim (Bool-cases (p x)) [
    | inl e ↦ rw e (ap (λ t. x ∷ t) (keep_if-append xs ys))
    | inr e ↦ rw e (keep_if-append xs ys)
  ]

  pub Has-keep_if : (a : A) (xs : List A) → Has a xs → p a ≡ true → Has a (keep_if p xs)
  Has-keep_if a [] h k = elim h [ ]
  Has-keep_if a (x ∷ xs) (inl e) k = rw (← e, k) (inl refl)
  Has-keep_if a (x ∷ xs) (inr h) k = elim (Bool-cases (p x)) [
    | inl e ↦ rw e (inr (Has-keep_if a xs h k))
    | inr e ↦ rw e (Has-keep_if a xs h k)
  ]

append_cons-ne : (xs ys : List Text) (y : Text) → xs ++ (y ∷ ys) ≢ []
append_cons-ne [] ys y h = cc
append_cons-ne (x ∷ xs) ys y h = cc

module _ {Num : Type 0} where
  placed_kind : (n i : ℕ) (m : ModelNode Num) → is_model_kind (placed n i m).kind ≡ true
  unfolding placed
  placed_kind n i m = ground arith

  placed-kept :
      (n i : ℕ) (ms : List (ModelNode Num))
      → keep_if (λ nd. is_model_kind nd.kind) (placed_from n i ms) ≡ placed_from n i ms
  unfolding placed_from
  placed-kept n i [] = refl
  placed-kept n i (m ∷ ms) =
      rw (placed_kind n i m) (ap (λ t. placed n i m ∷ t) (placed-kept n (suc i) ms))

  -- The ids of the rows that are shown: cloud providers, deployments, and local providers that no
  -- deployment stands for.
  abbrev pub row_ids : List (ProviderLike Num) → List (DeploymentLike Num) → List Text
  row_ids ps ds =
      map (λ p. prov_id p.id) (keep_if is_cloud ps)
      ++ (map (λ d. dep_id d.id) ds ++ map (λ p. prov_id p.id) (keep_if (is_fallback ds) ps))

  pub model_nodes-row_ids :
      (ps : List (ProviderLike Num)) (ds : List (DeploymentLike Num))
      → map (λ m. m.id) (model_nodes ps ds) ≡ row_ids ps ds
  unfolding model_nodes cloud_node deployment_node local_node
  model_nodes-row_ids ps ds = simp (map-append, map-map)

  provider_shown :
      (ps : List (ProviderLike Num)) (ds : List (DeploymentLike Num)) (p : ProviderLike Num)
      → Has p ps
      → Has (prov_id p.id) (row_ids ps ds)
        ⊎ ((is_local p.provider_type ≡ true) × (is_covered ds p ≡ true))
  provider_shown ps ds p h = elim (Bool-cases (is_local p.provider_type)) [
    | inr cloud ↦ inl (
        Has-append_left _ (map (λ p. prov_id p.id) (keep_if is_cloud ps)) _
          (Has-map (λ p. prov_id p.id) p _ (Has-keep_if is_cloud p ps h (rw cloud refl))))
    | inl local ↦ elim (Bool-cases (is_covered ds p)) [
      | inl covered ↦ inr (local, covered)
      | inr bare ↦ inl (
          Has-append_right _ (map (λ p. prov_id p.id) (keep_if is_cloud ps)) _ (
            Has-append_right _ (map (λ d. dep_id d.id) ds) _ (
              Has-map (λ p. prov_id p.id) p _
                (Has-keep_if (is_fallback ds) p ps h (rw (local, bare) refl)))))
    ]
  ]

  empty_rows :
      (ps : List (ProviderLike Num)) (ds : List (DeploymentLike Num))
      → ((is_empty ps && is_empty ds) ≡ true) ↔ (row_ids ps ds ≡ [])
  unfolding is_covered
  empty_rows [] [] = (λ _. refl, λ _. refl)
  empty_rows [] (d ∷ ds) = (λ h. cc, λ h. cc)
  empty_rows (p ∷ ps) (d ∷ ds) = (λ h. cc, λ h. absurd (append_cons-ne _ _ _ h))
  empty_rows (p ∷ ps) [] = elim (Bool-cases (is_local p.provider_type)) [
    | inl local ↦ rw local (λ h. cc, λ h. absurd (append_cons-ne _ _ _ h))
    | inr cloud ↦ rw cloud (λ h. cc, λ h. cc)
  ]

module _ {Num : Type 0} (numbers : Numbers Num) (ps : List (ProviderLike Num))
    (ds : List (DeploymentLike Num)) (summary : Option (DashboardSummaryLike Num)) where
  backbone-dropped : keep_if (λ nd. is_model_kind nd.kind) (backbone numbers summary) ≡ []
  unfolding backbone
  backbone-dropped = refl

  -- The ids that live traffic is drawn to are exactly the rows that are shown, in their order.
  provider_node_ids-row_ids :
      (build_topology numbers ps ds summary).provider_node_ids ≡ row_ids ps ds
  unfolding build_topology
  provider_node_ids-row_ids =
      let kept = λ (nd : InfraNode Num). is_model_kind nd.kind in
      let part = model_part numbers ps ds summary in
      ap (λ ns. node_ids (keep_if kept ns)) (nodes-append numbers ps ds summary)
      ∙ ap node_ids (keep_if-append kept (backbone numbers summary) part)
      ∙ ap (λ ns. node_ids (ns ++ keep_if kept part)) backbone-dropped
      ∙ ap node_ids (placed-kept _ 0 (model_nodes ps ds))
      ∙ node_ids-placed_from _ 0 (model_nodes ps ds)
      ∙ model_nodes-row_ids ps ds

  -- Every deployment is shown. A provider is shown too, unless it is local and some deployment has
  -- its display name as its model.
  pub rows_shown :
      ((d : DeploymentLike Num)
        → Has d ds
        → Has (dep_id d.id) (build_topology numbers ps ds summary).provider_node_ids)
      × ((p : ProviderLike Num)
          → Has p ps
          → Has (prov_id p.id) (build_topology numbers ps ds summary).provider_node_ids
            ⊎ ((is_local p.provider_type ≡ true) × (is_covered ds p ≡ true)))
  rows_shown = rw provider_node_ids-row_ids (
    λ d h.
        Has-append_right _ (map (λ p. prov_id p.id) (keep_if is_cloud ps)) _
          (Has-append_left _ (map (λ d. dep_id d.id) ds) _ (Has-map (λ d. dep_id d.id) d ds h)),
    λ p h. provider_shown ps ds p h,
  )

  -- The map counts as empty exactly when there is no row to show, that is when only the backbone is
  -- drawn: a list of providers all of which are hidden comes with deployments that are shown.
  is_empty_iff :
      ((build_topology numbers ps ds summary).is_empty ≡ true)
      ↔ ((build_topology numbers ps ds summary).provider_node_ids ≡ [])
  unfolding build_topology
  is_empty_iff = rw provider_node_ids-row_ids (empty_rows ps ds)
