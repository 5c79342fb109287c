-- ===== src/Topology/Status.antt =====
-- `healthToState` and `deploymentToState` of frontend/components/command-center/topology.ts, and
-- the deployment statuses that frontend/hooks/useDeployments.ts declares.
use llmplane.Common.{Bool, true, false, Option, none, some, Text, text, text_eq, if◌then◌else◌}
use llmplane.Topology.Types.{NodeState, healthy, high_load, warning, critical, offline}

unfoldable pub health_state : Option Text → NodeState
health_state none = offline
health_state (some health) =
    if text_eq health (text "healthy")
    then healthy
    else if text_eq health (text "degraded")
    then warning
    else if text_eq health (text "down")
    then critical
    else offline

unfoldable pub health_to_state : Option Text → Option Bool → NodeState
unfolding health_state
health_to_state health (some false) = offline
health_to_state health (some true) = health_state health
health_to_state health none = health_state health

unfoldable pub deployment_to_state : Option Text → NodeState
deployment_to_state none = offline
deployment_to_state (some status) =
    if text_eq status (text "running")
    then healthy
    else if text_eq status (text "starting")
    then high_load
    else if text_eq status (text "error")
    then critical
    else if text_eq status (text "stopped")
    then offline
    else offline

pub data DeploymentStatus : Type 0 where
  pending downloading running stopped error deleting : DeploymentStatus

-- The text of a status, as the API sends it.
unfoldable pub status_text : DeploymentStatus → Text
status_text pending = text "pending"
status_text downloading = text "downloading"
status_text running = text "running"
status_text stopped = text "stopped"
status_text error = text "error"
status_text deleting = text "deleting"
