-- ===== src/Scene/CenterLaws.antt =====
-- What the page around the scene shows, and a selection whose node has left the map.
use llmplane.Common.{
  ◌≡◌, ◌↔◌, refl, ap, ◌∙◌, inl, inr, sym, true, false, ◌||◌, List, [], ◌∷◌, Option, none, some,
  Text, text_eq, text_eq_iff, is_empty, Has, All, Bool-cases, arith,
}
use mathlib.Core.Path.{subst}
use llmplane.Topology.Types.{
  InfraNode, InfraEdge, Numbers, ProviderLike, DeploymentLike, DashboardSummaryLike,
}
use llmplane.Topology.Build.{build_topology}
use llmplane.Topology.Graph.{node_ids, IsJoined, build_topology-IsJoined}
use llmplane.Scene.Pick.{
  Pointer, PointerEvent, moves, clicks, closes_panel, refreshes, point, on_pointer, focus_of,
  neighbours, neighbour_set, is_connected, is_dim,
}
use llmplane.Scene.Center.{
  Query, command_center, rows_or_none, view, no_infrastructure, selected_node,
}

module _ {Num : Type 0} (numbers : Numbers Num) (ps : Query (List (ProviderLike Num)))
    (ds : Query (List (DeploymentLike Num))) (summary : Option (DashboardSummaryLike Num)) where
  -- The page says that no infrastructure is connected exactly if neither query is loading or has failed and
  -- neither has a row.
  view_iff : (view (command_center numbers ps ds summary) ≡ no_infrastructure) ↔ (
      ((ps.is_loading || ds.is_loading) ≡ false)
      × ((ps.is_error || ds.is_error) ≡ false)
      × (is_empty (rows_or_none ps.rows) ≡ true)
      × (is_empty (rows_or_none ds.rows) ≡ true))
  unfolding view command_center build_topology
  view_iff = ground arith

-- An id that is on no node.
abbrev pub IsGone : {Num : Type 0} → Text → List (InfraNode Num) → Type 0
IsGone id ns = Has id (node_ids ns) → ⊥

module _ {Num : Type 0} where
  selected_node-gone :
      (id : Text) (ns : List (InfraNode Num)) → IsGone id ns → selected_node (some id) ns ≡ none
  unfolding selected_node
  selected_node-gone id [] h = refl
  selected_node-gone id (n ∷ ns) h = elim (Bool-cases (text_eq n.id id)) [
    | inl e ↦ absurd (h (inl (sym ((text_eq_iff n.id id).0 e))))
    | inr e ↦ ground (arith, e, selected_node-gone id ns (λ k. h (inr k)))
  ]

text_eq-apart : (a b : Text) → (a ≡ b → ⊥) → text_eq a b ≡ false
text_eq-apart a b h = elim (Bool-cases (text_eq a b)) [
  | inl e ↦ absurd (h ((text_eq_iff a b).0 e))
  | inr e ↦ e
]

apart :
    (id other : Text) (ids : List Text)
    → (Has id ids → ⊥)
    → Has other ids
    → text_eq other id ≡ false
apart id other ids h k = text_eq-apart other id (λ e. h (subst (λ t. Has t ids) e k))

neighbours-gone :
    (id : Text) (ids : List Text) (es : List InfraEdge)
    → (Has id ids → ⊥)
    → All (IsJoined ids) es
    → (neighbours id es ≡ []) × All (λ e. is_connected (some id) e ≡ false) es
unfolding neighbours is_connected
neighbours-gone id ids [] h k = (refl, tt)
neighbours-gone id ids (e ∷ es) h ((f, t), k) =
    let (n, c) = neighbours-gone id ids es h k in
    (
      ground (arith, apart id e.from ids h f, apart id e.to ids h t, n),
      (ground (arith, apart id e.from ids h f, apart id e.to ids h t), c),
    )

nodes_dimmed :
    {Num : Type 0} (id : Text) (es : List InfraEdge) (ns : List (InfraNode Num))
    → neighbours id es ≡ []
    → IsGone id ns
    → All (λ n. is_dim (some id) es n.id ≡ true) ns
unfolding is_dim neighbour_set
nodes_dimmed id es [] e h = tt
nodes_dimmed id es (n ∷ ns) e h = (
  ground (arith, e, text_eq-apart n.id id (λ q. h (inl (sym q)))),
  nodes_dimmed id es ns e (λ k. h (inr k)),
)

-- What is neither a click nor the panel's button.
abbrev pub Keeps : PointerEvent → Type 0
Keeps (moves id) = Unit
Keeps refreshes = Unit
Keeps _ = ⊥

point-Keeps :
    (p : Pointer) (es : List PointerEvent) → All Keeps es → (point p es).selected_id ≡ p.selected_id
unfolding point on_pointer
point-Keeps p [] h = refl
point-Keeps p (moves id ∷ es) (k, h) = point-Keeps (record p { hovered_id = id }) es h
point-Keeps p (refreshes ∷ es) (k, h) = point-Keeps p es h
point-Keeps p (clicks id ∷ es) (k, h) = elim k [ ]
point-Keeps p (closes_panel ∷ es) (k, h) = elim k [ ]

focus-selected :
    (p : Pointer) (id : Text) → p.hovered_id ≡ none → p.selected_id ≡ some id → focus_of p ≡ some id
unfolding focus_of
focus-selected p id h k = ground (arith, h, k)

module _ {Num : Type 0} (numbers : Numbers Num) (ps : List (ProviderLike Num))
    (ds : List (DeploymentLike Num)) (summary : Option (DashboardSummaryLike Num)) where
  focus-IsGone :
      (id : Text)
      → IsGone id (build_topology numbers ps ds summary).nodes
      → (selected_node (some id) (build_topology numbers ps ds summary).nodes ≡ none)
        × All
            (λ n. is_dim (some id) (build_topology numbers ps ds summary).edges n.id ≡ true)
            (build_topology numbers ps ds summary).nodes
        × All (λ e. is_connected (some id) e ≡ false) (build_topology numbers ps ds summary).edges
  focus-IsGone id h =
      let map = build_topology numbers ps ds summary in
      let (n, c) =
        neighbours-gone id (node_ids map.nodes) map.edges h
          (build_topology-IsJoined numbers ps ds summary) in
      (selected_node-gone id map.nodes h, nodes_dimmed id map.edges map.nodes n h, c)

  -- A node is clicked, and then, whatever the pointer hovers over and however often the map is refreshed
  -- in between, that node is on the map no more, and the pointer is over no node: the node is still
  -- selected, its panel is closed, every node is drawn dimmed, and no edge is highlighted.
  pub selected_node-is_dim :
      (p : Pointer) (id : Text) (es : List PointerEvent)
      → All Keeps es
      → (point p (clicks (some id) ∷ es)).hovered_id ≡ none
      → IsGone id (build_topology numbers ps ds summary).nodes
      → let map = build_topology numbers ps ds summary in
        let q = point p (clicks (some id) ∷ es) in
        (q.selected_id ≡ some id)
        × (selected_node q.selected_id map.nodes ≡ none)
        × All (λ n. is_dim (focus_of q) map.edges n.id ≡ true) map.nodes
        × All (λ e. is_connected (focus_of q) e ≡ false) map.edges
  unfolding point on_pointer
  selected_node-is_dim p id es keeps idle gone =
      let q = point p (clicks (some id) ∷ es) in
      let kept : q.selected_id ≡ some id =
        point-Keeps (record p { selected_id = some id }) es keeps in
      let (closed, dimmed, plain) = focus-IsGone id gone in
      let focus : focus_of q ≡ some id = focus-selected q id idle kept in
      (
        kept,
        ap (λ o. selected_node o (build_topology numbers ps ds summary).nodes) kept ∙ closed,
        subst
            (λ o.
              All (λ n. is_dim o (build_topology numbers ps ds summary).edges n.id ≡ true)
                (build_topology numbers ps ds summary).nodes)
            (sym focus) dimmed,
        subst
            (λ o. All (λ e. is_connected o e ≡ false) (build_topology numbers ps ds summary).edges)
            (sym focus) plain,
      )
