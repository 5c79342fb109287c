-- ===== src/Hooks/Mutations.antt =====
-- All mutations of frontend/hooks/.
use llmplane.Common.{Bool, Option, Text}
use llmplane.Hooks.Keys.{Key}
use llmplane.Hooks.Changes.{
  MutationOptions, DeploymentAction, use_create_provider, use_update_provider, use_delete_provider,
  use_discover_models, use_bulk_confirm_models, use_create_deployment, use_deployment_action,
  use_delete_deployment, use_create_policy, use_update_policy, use_activate_policy,
  use_delete_policy, use_create_prompt, use_update_prompt, use_delete_prompt, use_create_experiment,
  use_delete_experiment, use_upload_benchmark_dataset, use_delete_benchmark_dataset,
  use_start_benchmark_run,
}

-- One constructor for each use of `useMutation`, with what its path depends on.
pub data Mutation : Type 0 where
  create_provider create_deployment create_policy create_prompt create_experiment : Mutation
  upload_dataset start_run : Mutation
  update_provider delete_provider discover_models confirm_models : Text → Mutation
  act_on : Text → DeploymentAction → Mutation
  delete_deployment : Text → Bool → Mutation
  update_policy activate_policy delete_policy update_prompt delete_prompt : Text → Mutation
  delete_experiment delete_dataset : Text → Mutation

unfoldable pub change_of : Mutation → MutationOptions
unfolding use_create_provider use_update_provider use_delete_provider use_discover_models
    use_bulk_confirm_models use_create_deployment use_deployment_action use_delete_deployment
    use_create_policy use_update_policy use_activate_policy use_delete_policy use_create_prompt
    use_update_prompt use_delete_prompt use_create_experiment use_delete_experiment
    use_upload_benchmark_dataset use_delete_benchmark_dataset use_start_benchmark_run
change_of create_provider = use_create_provider
change_of (update_provider id) = use_update_provider id
change_of (delete_provider id) = use_delete_provider id
change_of (discover_models id) = use_discover_models id
change_of (confirm_models id) = use_bulk_confirm_models id
change_of create_deployment = use_create_deployment
change_of (act_on id action) = use_deployment_action id action
change_of (delete_deployment id remove_volume) = use_delete_deployment id remove_volume
change_of create_policy = use_create_policy
change_of (update_policy id) = use_update_policy id
change_of (activate_policy id) = use_activate_policy id
change_of (delete_policy id) = use_delete_policy id
change_of create_prompt = use_create_prompt
change_of (update_prompt id) = use_update_prompt id
change_of (delete_prompt id) = use_delete_prompt id
change_of create_experiment = use_create_experiment
change_of (delete_experiment id) = use_delete_experiment id
change_of upload_dataset = use_upload_benchmark_dataset
change_of (delete_dataset id) = use_delete_benchmark_dataset id
change_of start_run = use_start_benchmark_run

unfoldable pub target : Mutation → Text
unfolding change_of
target m = (change_of m).target

unfoldable pub invalidated : Mutation → Option Key
unfolding change_of
invalidated m = (change_of m).invalidated
