-- ===== src/Topology/Build.antt =====
-- `buildTopology` of frontend/components/command-center/topology.ts.
use llmplane.Common.{
  ℕ, suc, ◌+◌, ◌*◌, max, Bool, true, false, not, ◌&&◌, ◌||◌, List, [], ◌∷◌, ◌++◌, map, Option, none,
  some, Text, text, text_eq, if◌then◌else◌, length, any, keep_if, is_empty, Dict, ℤ, pos, negsuc,
  sub_ℕ,
}
use llmplane.Topology.Types.{
  NodeState, healthy, warning, critical, NodeKind, clients, gateway, provider, deployment,
  evaluation, cache, database, observability, gpu, EdgeKind, request, dependency, Numbers,
  ProviderLike, DeploymentLike, DashboardSummaryLike, Metric, txt, num, Raw, provider_row,
  deployment_row, from_provider, from_deployment, Position, InfraNode, InfraEdge,
}
use llmplane.Topology.Status.{health_to_state, deployment_to_state}

-- `LOCAL_PROVIDER_TYPES.has(t)`, which is also the test `t === "ollama" || t === "vllm"`.
unfoldable pub is_local : Text → Bool
is_local t = text_eq t (text "ollama") || text_eq t (text "vllm")

abbrev at : ℤ → ℤ → ℤ → Position
at x y z = record { x = x; y = y; z = z }

abbrev pub dep_id : Text → Text
dep_id id = text "dep:" ++ id

abbrev pub prov_id : Text → Text
prov_id id = text "prov:" ++ id

abbrev pub is_model_kind : NodeKind → Bool
is_model_kind provider = true
is_model_kind deployment = true
is_model_kind _ = false

abbrev edge : Text → Text → Text → EdgeKind → InfraEdge
edge id from to kind = record { id = id; from = from; to = to; kind = kind }

module _ {Num : Type 0} where
  abbrev dash : Metric Num
  dash = txt (text "—")

  -- `a ?? "—"`.
  abbrev or_dash : Option Num → Metric Num
  or_dash none = dash
  or_dash (some a) = num a

  abbrev text_or : Option Text → Text → Metric Num
  text_or none other = txt other
  text_or (some s) other = txt s

  abbrev backbone_node :
      Text → Text → NodeKind → Position → NodeState → Dict (Metric Num) → InfraNode Num
  backbone_node id label kind position state metrics = record {
    id = id;
    label = label;
    kind = kind;
    position = position;
    state = state;
    metrics = metrics;
    source = none;
    provider_type = none;
  }

-- `(i - (n - 1) / 2) * 2.4`, in tenths, for a positive n.
unfoldable pub row_y : ℕ → ℕ → ℤ
row_y n i = sub_ℕ (12 * (2 * i + 1)) (12 * n)

-- A model node before it is placed.
pub record ModelNode (Num : Type 0) : Type 0 where
  pub id : Text
  pub label : Text
  pub type : Text
  pub state : NodeState
  pub raw : Raw Num
  pub metrics : Dict (Metric Num)

pub record BuildResult (Num : Type 0) : Type 0 where
  pub nodes : List (InfraNode Num)
  pub edges : List InfraEdge
  pub provider_node_ids : List Text
  pub is_empty : Bool

module _ {Num : Type 0} (numbers : Numbers Num) where
  open numbers use {plain, rounded, fixed, above}

  unfoldable pub gpu_state : Option Num → NodeState
  gpu_state none = healthy
  gpu_state (some util) =
      if above util 90 then critical else if above util 75 then warning else healthy

  abbrev gpu_util : Option (DashboardSummaryLike Num) → Option Num
  gpu_util none = none
  gpu_util (some s) = s.gpu_util_pct_avg

  abbrev shown :
      Option (DashboardSummaryLike Num) → (DashboardSummaryLike Num → Metric Num) → Metric Num
  shown none f = dash
  shown (some s) f = f s

  abbrev utilization : Option Num → Metric Num
  utilization none = txt (text "n/a")
  utilization (some util) = txt (rounded util ++ text "%")

  -- The seven nodes that are always there.
  unfoldable pub backbone : Option (DashboardSummaryLike Num) → List (InfraNode Num)
  unfolding gpu_state
  backbone summary =
      backbone_node (text "clients") (text "Clients") clients (at (negsuc 109) (pos 0) (pos 0))
        healthy
        ((text "traffic", shown summary (λ s. txt (plain s.requests_per_minute ++ text "/min")))
          ∷ [])
      ∷ backbone_node (text "gateway") (text "API Gateway") gateway (at (negsuc 64) (pos 0) (pos 0))
          healthy
          ((text "Requests / min", shown summary (λ s. num s.requests_per_minute))
            ∷ (
              text "Avg latency",
              shown summary (λ s. txt (rounded s.avg_latency_ms ++ text " ms")),
            )
            ∷ (
              text "Success rate",
              shown summary (λ s. txt (fixed 1 s.success_rate_pct ++ text "%")),
            )
            ∷ [])
      ∷ backbone_node (text "evaluation") (text "Evaluation") evaluation
          (at (pos 50) (pos 35) (negsuc 14)) healthy
          ((text "role", txt (text "quality scoring")) ∷ [])
      ∷ backbone_node (text "cache") (text "Cache / Redis") cache (at (pos 50) (negsuc 24) (pos 20))
          healthy ((text "role", txt (text "response cache")) ∷ [])
      ∷ backbone_node (text "observability") (text "Observability") observability
          (at (pos 55) (pos 50) (negsuc 14)) healthy
          ((text "role", txt (text "metrics · traces · logs")) ∷ [])
      ∷ backbone_node (text "database") (text "Database") database (at (pos 110) (pos 0) (pos 0))
          healthy
          ((text "requests", shown summary (λ s. num s.requests_today))
            ∷ (text "cost", shown summary (λ s. txt (text "$" ++ fixed 2 s.cost_today_usd)))
            ∷ [])
      ∷ backbone_node (text "gpu") (text "GPU") gpu (at (negsuc 64) (negsuc 44) (pos 0))
          (gpu_state (gpu_util summary))
          ((text "utilization", utilization (gpu_util summary))
            ∷ (text "deployments", shown summary (λ s. num s.active_deployments))
            ∷ [])
      ∷ []

module _ {Num : Type 0} where
  unfoldable pub deployment_node : DeploymentLike Num → ModelNode Num
  unfolding deployment_to_state
  deployment_node d = record {
    id = dep_id d.id;
    label = d.model_ref;
    type = d.backend_type;
    state = deployment_to_state (some d.status);
    raw = deployment_row d;
    metrics =
        (text "status", txt d.status)
        ∷ (text "backend", txt d.backend_type)
        ∷ (text "gpu", or_dash d.gpu_index)
        ∷ (text "port", or_dash d.port)
        ∷ (text "quantization", text_or d.quantization (text "—"))
        ∷ [];
  }

  provider_node : Dict (Metric Num) → ProviderLike Num → ModelNode Num
  unfolding health_to_state
  provider_node more p = record {
    id = prov_id p.id;
    label = p.display_name;
    type = p.provider_type;
    state = health_to_state p.health_status p.is_active;
    raw = provider_row p;
    metrics =
        (text "health", text_or p.health_status (text "unknown"))
        ∷ (text "latency", or_dash p.last_latency_ms)
        ∷ more;
  }

  unfoldable pub local_node : ProviderLike Num → ModelNode Num
  unfolding provider_node
  local_node p = provider_node [] p

  unfoldable pub cloud_node : ProviderLike Num → ModelNode Num
  unfolding provider_node
  cloud_node p = provider_node ((text "type", txt p.provider_type) ∷ []) p

  -- `effDeployments.some((d) => d.model_ref === p.display_name)`.
  unfoldable pub is_covered : List (DeploymentLike Num) → ProviderLike Num → Bool
  is_covered ds p = any (λ d. text_eq d.model_ref p.display_name) ds

  abbrev pub is_cloud : ProviderLike Num → Bool
  is_cloud p = not (is_local p.provider_type)

  -- A local provider that no deployment stands for.
  abbrev pub is_fallback : List (DeploymentLike Num) → ProviderLike Num → Bool
  is_fallback ds p = is_local p.provider_type && not (is_covered ds p)

  unfoldable pub model_nodes :
      List (ProviderLike Num) → List (DeploymentLike Num) → List (ModelNode Num)
  model_nodes ps ds =
      map cloud_node (keep_if is_cloud ps)
      ++ (map deployment_node ds ++ map local_node (keep_if (is_fallback ds) ps))

  unfoldable pub placed : ℕ → ℕ → ModelNode Num → InfraNode Num
  unfolding row_y
  placed n i m = record {
    id = m.id;
    label = m.label;
    kind = if is_local m.type then deployment else provider;
    position = at (pos 0) (row_y n i) (if is_local m.type then pos 25 else negsuc 4);
    state = m.state;
    metrics = m.metrics;
    source =
        some (record {
          type = if is_local m.type then from_deployment else from_provider;
          raw = m.raw;
        });
    provider_type = some m.type;
  }

  unfoldable pub model_edges : ModelNode Num → List InfraEdge
  model_edges m =
      edge (text "g-" ++ m.id) (text "gateway") m.id request
      ∷ edge (text "m-" ++ m.id) m.id (text "evaluation") dependency
      ∷ edge (text "d-" ++ m.id) m.id (text "database") dependency
      ∷ (if is_local m.type
          then edge (text "gpu-" ++ m.id) (text "gpu") m.id dependency ∷ []
          else [])

  -- The loop of `modelNodes.forEach`, over the nodes and edges so far.
  unfoldable pub push_models :
      ℕ
      → ℕ
      → List (ModelNode Num)
      → List (InfraNode Num) × List InfraEdge
      → List (InfraNode Num) × List InfraEdge
  push_models n i [] acc = acc
  push_models n i (m ∷ ms) acc =
      push_models n (suc i) ms (acc.0 ++ placed n i m ∷ [], acc.1 ++ model_edges m)

unfoldable pub backbone_edges : List InfraEdge
backbone_edges =
    edge (text "c-g") (text "clients") (text "gateway") request
    ∷ edge (text "g-cache") (text "gateway") (text "cache") dependency
    ∷ edge (text "g-obs") (text "gateway") (text "observability") dependency
    ∷ edge (text "e-db") (text "evaluation") (text "database") dependency
    ∷ []

module _ {Num : Type 0} (numbers : Numbers Num) where
  unfoldable pub build_topology :
      List (ProviderLike Num)
      → List (DeploymentLike Num)
      → Option (DashboardSummaryLike Num)
      → BuildResult Num
  build_topology ps ds summary =
      let models = model_nodes ps ds in
      let grown = push_models (max (length models) 1) 0 models (backbone numbers summary, []) in
      record {
        nodes = grown.0;
        edges = grown.1 ++ backbone_edges;
        provider_node_ids = map (λ n. n.id) (keep_if (λ n. is_model_kind n.kind) grown.0);
        is_empty = is_empty ps && is_empty ds;
      }

-- For tests: the whole construction unfolds where this does.
unfoldable pub topology : Unit {0}
unfolding build_topology backbone model_nodes push_models backbone_edges placed model_edges
    cloud_node deployment_node local_node is_covered is_local
topology = tt
