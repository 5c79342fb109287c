-- ===== src/Topology/Loop.antt =====
-- The loop that places the model nodes appends one node and its edges for each.
use llmplane.Common.{
  ℕ, suc, ◌≡◌, refl, ap, ◌∙◌, List, [], ◌∷◌, ◌++◌, append_assoc, append-nil, max, length, Option,
}
use llmplane.Topology.Types.{
  InfraNode, InfraEdge, Numbers, ProviderLike, DeploymentLike, DashboardSummaryLike,
}
use llmplane.Topology.Build.{
  ModelNode, placed, model_edges, push_models, model_nodes, build_topology, backbone,
  backbone_edges,
}

pair : {A B : Type 0} {a a' : A} {b b' : B} → a ≡ a' → b ≡ b' → ◌≡◌ {A = A × B} (a, b) (a', b')
pair p q = λ i. (p i, q i)

module _ {Num : Type 0} where
  unfoldable pub placed_from : ℕ → ℕ → List (ModelNode Num) → List (InfraNode Num)
  placed_from n i [] = []
  placed_from n i (m ∷ ms) = placed n i m ∷ placed_from n (suc i) ms

  unfoldable pub edges_of : List (ModelNode Num) → List InfraEdge
  edges_of [] = []
  edges_of (m ∷ ms) = model_edges m ++ edges_of ms

  pub push_models-append :
      (n i : ℕ) (ms : List (ModelNode Num)) (ns : List (InfraNode Num)) (es : List InfraEdge)
      → push_models n i ms (ns, es) ≡ (ns ++ placed_from n i ms, es ++ edges_of ms)
  unfolding push_models placed_from edges_of
  push_models-append n i [] ns es = rw (append-nil ns, append-nil es) refl
  push_models-append n i (m ∷ ms) ns es =
      push_models-append n (suc i) ms (ns ++ placed n i m ∷ []) (es ++ model_edges m)
      ∙ pair (append_assoc ns (placed n i m ∷ []) (placed_from n (suc i) ms))
          (append_assoc es (model_edges m) (edges_of ms))

module _ {Num : Type 0} (numbers : Numbers Num) (ps : List (ProviderLike Num))
    (ds : List (DeploymentLike Num)) (summary : Option (DashboardSummaryLike Num)) where
  -- The placed model nodes of the map.
  abbrev pub model_part : List (InfraNode Num)
  model_part = placed_from (max (length (model_nodes ps ds)) 1) 0 (model_nodes ps ds)

  pub nodes-append :
      (build_topology numbers ps ds summary).nodes ≡ backbone numbers summary ++ model_part
  unfolding build_topology
  nodes-append =
      ap (λ r. r.0) (push_models-append _ 0 (model_nodes ps ds) (backbone numbers summary) [])

  pub edges-append :
      (build_topology numbers ps ds summary).edges ≡ edges_of (model_nodes ps ds) ++ backbone_edges
  unfolding build_topology
  edges-append =
      ap (λ r. r.1 ++ backbone_edges)
        (push_models-append _ 0 (model_nodes ps ds) (backbone numbers summary) [])
