-- ===== src/Topology/Layout.antt =====
-- Where the model nodes stand, and what state a deployment is drawn in.
use llmplane.Common.{ℕ, suc, ◌-◌, ◌<◌, ◌≡◌, ◌≢◌, ◌↔◌, ◌⊎◌, some, arith, pos, ◌+ℤ◌, text_methods}
use llmplane.Topology.Types.{high_load, offline}
use llmplane.Topology.Build.{row_y}
use llmplane.Topology.Status.{
  DeploymentStatus, pending, downloading, stopped, deleting, status_text, deployment_to_state,
}

-- In a column of n rows each row stands 2.4 above the one before it, and the column is centred: a
-- row and its mirror image have opposite heights.
row_y_centred :
    (n i : ℕ)
    → i < n
    → (row_y n i +ℤ row_y n (n - suc i) ≡ pos 0) × (row_y n (suc i) ≡ row_y n i +ℤ pos 24)
unfolding row_y ◌+ℤ◌
row_y_centred n i h = ground arith

-- No status that a deployment can have is drawn as under high load, and four of the six are drawn
-- as offline: a deployment that waits or downloads its model looks like one that is stopped.
status_state :
    (s : DeploymentStatus)
    → (deployment_to_state (some (status_text s)) ≢ high_load)
      × ((deployment_to_state (some (status_text s)) ≡ offline)
          ↔ ((s ≡ pending) ⊎ ((s ≡ downloading) ⊎ ((s ≡ stopped) ⊎ (s ≡ deleting)))))
unfolding deployment_to_state status_text text_methods
status_state pending = ground arith
status_state _ = ground arith
