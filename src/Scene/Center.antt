-- ===== src/Scene/Center.antt =====
-- `useCommandCenter` of frontend/hooks/useCommandCenter.ts and what the page around the scene,
-- frontend/components/command-center/CommandCenter.tsx, makes of it, with the colours and labels of
-- frontend/components/command-center/node-state.ts.
use llmplane.Common.{
  ℕ, Bool, true, false, not, ◌&&◌, ◌||◌, List, [], ◌∷◌, Option, none, some, Text, text, text_eq,
  length, keep_if, if◌then◌else◌,
}
use llmplane.Topology.Types.{
  InfraNode, Numbers, ProviderLike, DeploymentLike, DashboardSummaryLike, NodeState, healthy,
  high_load, warning, critical, offline,
}
use llmplane.Topology.Build.{BuildResult, build_topology, is_model_kind}

-- What a query gives: its rows, whether it is loading for the first time, and the message of its error.
pub record Query (A : Type 0) : Type 0 where
  pub rows : Option A
  pub is_loading : Bool
  pub is_error : Bool
  pub error : Option Text

pub record Center (Num : Type 0) : Type 0 where
  pub map : BuildResult Num
  pub summary : Option (DashboardSummaryLike Num)
  pub is_loading : Bool
  pub is_error : Bool
  pub error : Option Text

abbrev pub rows_or_none : {A : Type 0} → Option (List A) → List A
rows_or_none none = []
rows_or_none (some rows) = rows

module _ {Num : Type 0} (numbers : Numbers Num) where
  unfoldable pub command_center :
      Query (List (ProviderLike Num))
      → Query (List (DeploymentLike Num))
      → Option (DashboardSummaryLike Num)
      → Center Num
  command_center providers deployments summary = record {
    map =
        build_topology numbers (rows_or_none providers.rows) (rows_or_none deployments.rows)
          summary;
    summary = summary;
    is_loading = providers.is_loading || deployments.is_loading;
    is_error = providers.is_error || deployments.is_error;
    error = elim providers.error [ none ↦ deployments.error | some e ↦ some e ];
  }

pub data View : Type 0 where
  loading : View
  unreachable : Text → View
  no_infrastructure : View
  scene : View

abbrev pub is_healthy : NodeState → Bool
is_healthy healthy = true
is_healthy _ = false

abbrev pub is_alert : NodeState → Bool
is_alert critical = true
is_alert warning = true
is_alert _ = false

module _ {Num : Type 0} where
  -- The branches of the page's body.
  unfoldable pub view : Center Num → View
  view c =
      if c.is_loading
      then loading
      else (if c.is_error
          then elim c.error [
            | none ↦ unreachable (text "The providers and deployments queries failed.")
            | some message ↦ unreachable message
          ]
          else (if c.map.is_empty then no_infrastructure else scene))

  unfoldable pub selected_node : Option Text → List (InfraNode Num) → Option (InfraNode Num)
  selected_node none ns = none
  selected_node (some id) [] = none
  selected_node (some id) (n ∷ ns) =
      let rest = selected_node (some id) ns in if text_eq n.id id then some n else rest

  unfoldable pub active_models : List (InfraNode Num) → ℕ
  active_models ns = length (keep_if (λ n. is_model_kind n.kind && is_healthy n.state) ns)

  unfoldable pub alerts : List (InfraNode Num) → ℕ
  alerts ns = length (keep_if (λ n. is_alert n.state) ns)

-- The label of the connection.
unfoldable pub flow_label : Bool → Bool → Text
flow_label connected simulated =
    if not connected
    then text "Disconnected"
    else (if simulated then text "Simulated flow" else text "Live traffic")

-- `STATE_COLORS` and `STATE_LABEL`.
unfoldable pub state_color : NodeState → Text
state_color healthy = text "#22c55e"
state_color high_load = text "#eab308"
state_color warning = text "#f59e0b"
state_color critical = text "#ef4444"
state_color offline = text "#64748b"

unfoldable pub state_label : NodeState → Text
state_label healthy = text "Healthy"
state_label high_load = text "High Load"
state_label warning = text "Warning"
state_label critical = text "Critical"
state_label offline = text "Offline"
