-- ===== src/Topology/Graph.antt =====
-- Every edge of the map joins two of its nodes, so that the drawing code, which looks the two ends
-- up without a check, always finds them.
use llmplane.Common.{
  ℕ, suc, ◌≡◌, refl, ap, ◌∙◌, inl, inr, List, [], ◌∷◌, ◌++◌, map, append_assoc, Option, Text, text,
  Has, Has-append_right, All, All-append, Bool-cases,
}
use mathlib.Core.List.{map-append}
use mathlib.Core.Path.{subst}
use llmplane.Topology.Types.{
  InfraNode, InfraEdge, Numbers, ProviderLike, DeploymentLike, DashboardSummaryLike,
}
use llmplane.Topology.Build.{
  ModelNode, is_local, placed, model_edges, model_nodes, build_topology, backbone, backbone_edges,
}
use llmplane.Topology.Loop.{placed_from, edges_of, model_part, nodes-append, edges-append}

abbrev pub IsJoined : List Text → InfraEdge → Type 0
IsJoined ids e = Has e.from ids × Has e.to ids

abbrev pub node_ids : {Num : Type 0} → List (InfraNode Num) → List Text
node_ids ns = map (λ n. n.id) ns

pub record HasHubs (ids : List Text) : Type 0 where
  pub clients : Has (text "clients") ids
  pub gateway : Has (text "gateway") ids
  pub evaluation : Has (text "evaluation") ids
  pub cache : Has (text "cache") ids
  pub observability : Has (text "observability") ids
  pub database : Has (text "database") ids
  pub gpu : Has (text "gpu") ids

backbone_edges-IsJoined : (ids : List Text) → HasHubs ids → All (IsJoined ids) backbone_edges
unfolding backbone_edges
backbone_edges-IsJoined ids h = (
  (h.clients, h.gateway),
  ((h.gateway, h.cache), ((h.gateway, h.observability), ((h.evaluation, h.database), tt))),
)

module _ {Num : Type 0} where
  pub node_ids-placed_from :
      (n i : ℕ) (ms : List (ModelNode Num)) → node_ids (placed_from n i ms) ≡ map (λ m. m.id) ms
  unfolding placed_from placed
  node_ids-placed_from n i [] = refl
  node_ids-placed_from n i (m ∷ ms) = ap (λ t. m.id ∷ t) (node_ids-placed_from n (suc i) ms)

  model_edges-IsJoined :
      (ids : List Text) (m : ModelNode Num)
      → HasHubs ids
      → Has m.id ids
      → All (IsJoined ids) (model_edges m)
  unfolding model_edges
  model_edges-IsJoined ids m h k = elim (Bool-cases (is_local m.type)) [
    | inl e ↦ rw e ((h.gateway, k), ((k, h.evaluation), ((k, h.database), ((h.gpu, k), tt))))
    | inr e ↦ rw e ((h.gateway, k), ((k, h.evaluation), ((k, h.database), tt)))
  ]

  edges_of-IsJoined :
      (ids : List Text) (ms : List (ModelNode Num))
      → HasHubs ids
      → All (λ m. Has m.id ids) ms
      → All (IsJoined ids) (edges_of ms)
  unfolding edges_of
  edges_of-IsJoined ids [] h k = tt
  edges_of-IsJoined ids (m ∷ ms) h (q, k) =
      All-append (IsJoined ids) (model_edges m) (edges_of ms) (model_edges-IsJoined ids m h q)
        (edges_of-IsJoined ids ms h k)

  All-Has :
      (pre : List Text) (ms : List (ModelNode Num))
      → All (λ m. Has m.id (pre ++ map (λ m. m.id) ms)) ms
  All-Has pre [] = tt
  All-Has pre (m ∷ ms) = (
    Has-append_right m.id pre _ (inl refl),
    subst (λ (ids : List Text). All (λ m. Has m.id ids) ms)
        (append_assoc pre (m.id ∷ []) (map (λ m. m.id) ms)) (All-Has (pre ++ m.id ∷ []) ms),
  )

module _ {Num : Type 0} (numbers : Numbers Num) (ps : List (ProviderLike Num))
    (ds : List (DeploymentLike Num)) (summary : Option (DashboardSummaryLike Num)) where
  pub backbone-HasHubs : (rest : List Text) → HasHubs (node_ids (backbone numbers summary) ++ rest)
  unfolding backbone
  backbone-HasHubs rest = record {
    clients = inl refl;
    gateway = inr (inl refl);
    evaluation = inr (inr (inl refl));
    cache = inr (inr (inr (inl refl)));
    observability = inr (inr (inr (inr (inl refl))));
    database = inr (inr (inr (inr (inr (inl refl)))));
    gpu = inr (inr (inr (inr (inr (inr (inl refl))))));
  }

  -- The ids of the map: the backbone's, then those of the model nodes.
  pub node_ids-nodes :
      node_ids (build_topology numbers ps ds summary).nodes
      ≡ node_ids (backbone numbers summary) ++ map (λ m. m.id) (model_nodes ps ds)
  node_ids-nodes =
      ap node_ids (nodes-append numbers ps ds summary)
      ∙ map-append _ (backbone numbers summary) (model_part numbers ps ds summary)
      ∙ ap (λ t. node_ids (backbone numbers summary) ++ t)
          (node_ids-placed_from _ 0 (model_nodes ps ds))

  -- Both ends of every edge are ids of nodes on the map, for all providers, deployments and
  -- summaries.
  pub build_topology-IsJoined :
      All
        (IsJoined (node_ids (build_topology numbers ps ds summary).nodes))
        (build_topology numbers ps ds summary).edges
  build_topology-IsJoined =
      let ms = model_nodes ps ds in
      let ids = node_ids (backbone numbers summary) ++ map (λ m. m.id) ms in
      let h = backbone-HasHubs (map (λ m. m.id) ms) in
      rw (node_ids-nodes, edges-append numbers ps ds summary)
        (All-append (IsJoined ids) (edges_of ms) backbone_edges
          (edges_of-IsJoined ids ms h (All-Has (node_ids (backbone numbers summary)) ms))
          (backbone_edges-IsJoined ids h))
