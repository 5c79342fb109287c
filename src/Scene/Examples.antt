-- ===== src/Scene/Examples.antt =====
-- The theorems of the scene at a concrete map.
use llmplane.Common.{
  any, Has, inl, inr, text_eq_refl, text_methods, ℕ, ◌+◌, ◌*◌, ◌-◌, ◌/◌, not, text_eq,
  if◌then◌else◌, ◌≡◌, refl, true, false, List, [], ◌∷◌, none, some, Text, text, ltb, leb, All, pos,
  arith,
}
use llmplane.Topology.Types.{InfraNode, InfraEdge, Numbers, ProviderLike, clients, healthy, request}
use llmplane.Topology.Build.{build_topology, topology}
use llmplane.Topology.Graph.{node_ids}
use llmplane.Scene.Pick.{
  Pointer, PointerEvent, moves, clicks, refreshes, point, focus_of, pick, is_dim, is_connected,
}
use llmplane.Scene.PickLaws.{IsStrict, IsNearest, pick-IsNearest}
use llmplane.Scene.Center.{selected_node}
use llmplane.Scene.CenterLaws.{IsGone, selected_node-is_dim}
use llmplane.Scene.Particles.{Arithmetic, Draw, Flow, Tick, success, frames}
use llmplane.Scene.DrawLaws.{InRange, IsDrawn, frames-IsDrawn}

abbrev node_at : Text → ℕ → InfraNode ℕ
node_at id x = record {
  id = id;
  label = id;
  kind = clients;
  position = record { x = pos x; y = pos 0; z = pos 0 };
  state = healthy;
  metrics = [];
  source = none;
  provider_type = none;
}

-- The distance to a pointer at the second node.
abbrev distance : InfraNode ℕ → ℕ
distance n = if text_eq n.id (text "b") then 0 else 30

ltb-IsStrict : IsStrict ltb
ltb-IsStrict = record { irrefl = λ a. ground arith; trans = λ a b c h k. ground (arith, h, k) }

abbrev nodes : List (InfraNode ℕ)
nodes = node_at (text "a") 1 ∷ node_at (text "b") 2 ∷ []

pick-IsNearest_example : IsNearest ltb distance 26 nodes (pick ltb distance 26 nodes)
pick-IsNearest_example = pick-IsNearest ltb distance ltb-IsStrict 26 nodes

abbrev edges : List InfraEdge
edges = record { id = text "e"; from = text "a"; to = text "b"; kind = request } ∷ []

-- Numbers in hundredths.
abbrev hundredths : Arithmetic ℕ
hundredths = record {
  plus = λ a b. a + b;
  times = λ a b. a * b / 100;
  minus_one = λ a. a - 100;
  at_least_one = λ a. leb 100 a;
  none_yet = 0;
  floor_times = λ t n. t * n / 100;
}

abbrev draws : ℕ → Draw ℕ
draws k = record { index = λ n. 0; speed = 30; status = success }

abbrev full : Flow ℕ
full = record { acc = 250; particles = [] }

abbrev whole : Numbers ℕ
whole = record {
  plain = λ n. n ∷ [];
  rounded = λ n. n ∷ [];
  fixed = λ d n. n ∷ [];
  above = λ n m. not (leb n m);
}

abbrev rows : List (ProviderLike ℕ)
rows =
    record {
      id = text "p1";
      provider_type = text "openai";
      display_name = text "OpenAI";
      health_status = some (text "healthy");
      is_active = some true;
      last_latency_ms = some 120;
    }
    ∷ []

abbrev tick : Tick ℕ
tick = record {
  rate = 500;
  dt = 50;
  ids = (build_topology whole rows [] none).provider_node_ids;
  draws = draws;
}

abbrev empty_flow : Flow ℕ
empty_flow = record { acc = 0; particles = [] }

draws-InRange : InRange draws
draws-InRange k n h = h

frames-IsDrawn_example :
    All
      (IsDrawn (build_topology whole rows [] none).nodes hundredths)
      (frames hundredths (tick ∷ tick ∷ []) empty_flow).particles
frames-IsDrawn_example =
    frames-IsDrawn whole rows [] none hundredths (tick ∷ tick ∷ []) 0
      ((refl, draws-InRange), ((refl, draws-InRange), tt))

absent : (id : Text) (ids : List Text) → any (text_eq id) ids ≡ false → Has id ids → ⊥
absent id [] e h = h
absent id (x ∷ ids) e (inl q) = ground (arith, e, q, text_eq_refl x)
absent id (x ∷ ids) e (inr h) = absent id ids (ground (arith, e)) h

gone : IsGone (text "dep:gone") (build_topology whole rows [] none).nodes
unfolding topology text_methods
gone = absent (text "dep:gone") (node_ids (build_topology whole rows [] none).nodes) refl

-- The deployment is clicked, the pointer moves over another node and away, and the map is refreshed.
abbrev nowhere : Pointer
nowhere = record { selected_id = none; hovered_id = none }

abbrev wandering : List PointerEvent
wandering = moves (some (text "gateway")) ∷ refreshes ∷ moves none ∷ []

selected_node-is_dim_example :
    let map = build_topology whole rows [] none in
    let q = point nowhere (clicks (some (text "dep:gone")) ∷ wandering) in
    (q.selected_id ≡ some (text "dep:gone"))
    × (selected_node q.selected_id map.nodes ≡ none)
    × All (λ n. is_dim (focus_of q) map.edges n.id ≡ true) map.nodes
    × All (λ e. is_connected (focus_of q) e ≡ false) map.edges
unfolding point
selected_node-is_dim_example =
    selected_node-is_dim whole rows [] none nowhere (text "dep:gone") wandering (tt, (tt, (tt, tt)))
      refl gone
