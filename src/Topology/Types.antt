-- ===== src/Topology/Types.antt =====
-- frontend/components/command-center/types.ts, and the rows that topology.ts reads. Positions are
-- in tenths of the scene's unit. The number type and its printing are parameters.
use llmplane.Common.{ℕ, Bool, Option, Text, Dict, ℤ}

pub data NodeState : Type 0 where
  healthy high_load warning critical offline : NodeState

pub data NodeKind : Type 0 where
  clients gateway provider deployment evaluation cache database observability gpu : NodeKind

pub data EdgeKind : Type 0 where
  request dependency : EdgeKind

-- What the map does with a JavaScript number: print it as it is, rounded, or with a fixed number
-- of decimals, and compare it with a whole number.
pub record Numbers (Num : Type 0) : Type 0 where
  pub plain : Num → Text
  pub rounded : Num → Text
  pub fixed : ℕ → Num → Text
  pub above : Num → ℕ → Bool

pub record ProviderLike (Num : Type 0) : Type 0 where
  pub id : Text
  pub provider_type : Text
  pub display_name : Text
  pub health_status : Option Text
  pub is_active : Option Bool
  pub last_latency_ms : Option Num

-- `quantization` is the entry of `config`, printed by `String`; none if it or `config` is null.
pub record DeploymentLike (Num : Type 0) : Type 0 where
  pub id : Text
  pub model_ref : Text
  pub backend_type : Text
  pub status : Text
  pub port : Option Num
  pub gpu_index : Option Num
  pub quantization : Option Text

pub record DashboardSummaryLike (Num : Type 0) : Type 0 where
  pub requests_today : Num
  pub cost_today_usd : Num
  pub avg_latency_ms : Num
  pub success_rate_pct : Num
  pub error_rate_pct : Num
  pub tokens_used_today : Num
  pub requests_per_minute : Num
  pub active_deployments : Num
  pub gpu_util_pct_avg : Option Num

-- A metric is a string or a number.
pub data Metric (Num : Type 0) : Type 0 where
  txt : Text → Metric Num
  num : Num → Metric Num

pub data Raw (Num : Type 0) : Type 0 where
  provider_row : ProviderLike Num → Raw Num
  deployment_row : DeploymentLike Num → Raw Num

pub data SourceType : Type 0 where
  from_provider from_deployment from_static : SourceType

pub record Source (Num : Type 0) : Type 0 where
  pub type : SourceType
  pub raw : Raw Num

pub record Position : Type 0 where
  pub x : ℤ
  pub y : ℤ
  pub z : ℤ

pub record InfraNode (Num : Type 0) : Type 0 where
  pub id : Text
  pub label : Text
  pub kind : NodeKind
  pub position : Position
  pub state : NodeState
  pub metrics : Dict (Metric Num)
  pub source : Option (Source Num)
  pub provider_type : Option Text

pub record InfraEdge : Type 0 where
  pub id : Text
  pub from : Text
  pub to : Text
  pub kind : EdgeKind
