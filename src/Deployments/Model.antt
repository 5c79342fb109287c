-- ===== src/Deployments/Model.antt =====
-- The rows and the requests of frontend/hooks/useDeployments.ts. `V` is the type of the values that the
-- pages only show: numbers and the entries of `config`.
use llmplane.Common.{
  Bool, true, false, List, [], ◌∷◌, ◌++◌, Option, none, some, Text, text, text_eq, Dict,
  if◌then◌else◌,
}

pub data DeploymentStatus : Type 0 where
  pending downloading running stopped error deleting : DeploymentStatus

pub data BackendType : Type 0 where
  ollama vllm : BackendType

pub record Deployment (V : Type 0) : Type 0 where
  pub id : Text
  pub project_id : Text
  pub provider_id : Text
  pub backend_type : BackendType
  pub model_ref : Text
  pub status : DeploymentStatus
  pub container_id : Option Text
  pub gpu_index : Option V
  pub port : Option V
  pub error_message : Option Text
  pub download_progress_pct : Option V
  pub config : Option (Dict V)
  pub created_at : Text

pub data DeploymentAction : Type 0 where
  start stop restart : DeploymentAction

abbrev pub is_pending : DeploymentStatus → Bool
is_pending pending = true
is_pending _ = false

-- `d.status === "stopped" || d.status === "error"`.
abbrev pub is_stopped : DeploymentStatus → Bool
is_stopped stopped = true
is_stopped error = true
is_stopped _ = false

abbrev pub is_running : DeploymentStatus → Bool
is_running running = true
is_running _ = false

-- `data?.find((d) => d.id === id)`, in `useDeployment`.
unfoldable pub find_deployment : {V : Type 0} → Text → List (Deployment V) → Option (Deployment V)
find_deployment id [] = none
find_deployment id (d ∷ ds) =
    let rest = find_deployment id ds in if text_eq d.id id then some d else rest

unfoldable pub deployment_of :
    {V : Type 0} → Text → Option (List (Deployment V)) → Option (Deployment V)
unfolding find_deployment
deployment_of id none = none
deployment_of id (some ds) = find_deployment id ds

pub data Method : Type 0 where
  post delete : Method

pub record Request : Type 0 where
  pub method : Method
  pub path : Text

abbrev action_text : DeploymentAction → Text
action_text start = text "start"
action_text stop = text "stop"
action_text restart = text "restart"

-- What the mutation of `useDeploymentAction` asks `apiFetch` for.
unfoldable pub action_request : Text → DeploymentAction → Request
action_request id a = record {
  method = post;
  path = text "/deployments/" ++ (id ++ (text "/" ++ action_text a));
}

-- What the mutation of `useDeleteDeployment` asks for; `removeVolume` is false by default.
unfoldable pub delete_request : Text → Option Bool → Request
delete_request id remove_volume = record {
  method = delete;
  path =
      text "/deployments/"
      ++ (id
          ++ (text "?remove_volume=" ++ elim remove_volume [
            | none ↦ text "false"
            | some b ↦ if b then text "true" else text "false"
          ]));
}
