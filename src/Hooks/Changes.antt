-- ===== src/Hooks/Changes.antt =====
-- The mutations of frontend/hooks/useProviders.ts, useDeployments.ts, usePolicies.ts, usePrompts.ts,
-- useExperiments.ts and useBenchmarks.ts: the request of each, the key that its success invalidates,
-- and what it tells the user.
use llmplane.Common.{ℕ, Bool, [], ◌∷◌, ◌++◌, Option, none, some, Text, text, if◌then◌else◌}
use llmplane.Hooks.Keys.{Key, str}

pub data Method : Type 0 where
  post patch delete : Method

-- A toast's title and its description.
pub record Toast : Type 0 where
  pub title : Text
  pub description : Text

-- `success` is given the `model_ref` of the answer, if it has one, and `failure` the error's message.
pub record MutationOptions : Type 0 where
  pub method : Method
  pub target : Text
  pub timeout_ms : Option ℕ
  pub invalidated : Option Key
  pub success : Text → Option Toast
  pub failure : Text → Option Toast

-- A mutation that invalidates the key of a word and says nothing.
abbrev pub change : Method → Text → Text → MutationOptions
change m p word = record {
  method = m;
  target = p;
  timeout_ms = none;
  invalidated = some (str word ∷ []);
  success = λ model_ref. none;
  failure = λ message. none;
}

pub data DeploymentAction : Type 0 where
  start stop restart : DeploymentAction

abbrev pub action_text : DeploymentAction → Text
action_text start = text "start"
action_text stop = text "stop"
action_text restart = text "restart"

-- `ACTION_LABEL`.
unfoldable pub action_label : DeploymentAction → Text
action_label start = text "Start requested"
action_label stop = text "Stop requested"
action_label restart = text "Restart requested"

abbrev pub bool_text : Bool → Text
bool_text b = if b then text "true" else text "false"

unfoldable pub use_create_provider : MutationOptions
use_create_provider = change post (text "/providers") (text "providers")

unfoldable pub use_update_provider : Text → MutationOptions
use_update_provider id = change patch (text "/providers/" ++ id) (text "providers")

unfoldable pub use_delete_provider : Text → MutationOptions
use_delete_provider id = change delete (text "/providers/" ++ id) (text "providers")

unfoldable pub use_discover_models : Text → MutationOptions
use_discover_models id =
    record (change post (text "/providers/" ++ (id ++ text "/discover-models")) []) {
      invalidated = none;
    }

unfoldable pub use_bulk_confirm_models : Text → MutationOptions
use_bulk_confirm_models id =
    change post (text "/providers/" ++ (id ++ text "/models/bulk-confirm")) (text "providers")

unfoldable pub use_create_deployment : MutationOptions
use_create_deployment = record (change post (text "/deployments") (text "deployments")) {
  success = λ model_ref. some (record {
    title = text "Deployment queued";
    description = model_ref ++ text " is being pulled and started.";
  });
  failure = λ message.
      some (record { title = text "Could not create deployment"; description = message });
}

unfoldable pub use_deployment_action : Text → DeploymentAction → MutationOptions
unfolding action_label
use_deployment_action id action =
    record (change post (text "/deployments/" ++ (id ++ (text "/" ++ action_text action)))
      (text "deployments")) {
        success = λ model_ref. some (record {
          title = action_label action;
          description = text "Waiting for the worker to apply it.";
        });
        failure = λ message. some (record {
          title = text "Could not " ++ (action_text action ++ text " deployment");
          description = message;
        });
      }

unfoldable pub use_delete_deployment : Text → Bool → MutationOptions
use_delete_deployment id remove_volume =
    record (change delete
      (text "/deployments/" ++ (id ++ (text "?remove_volume=" ++ bool_text remove_volume)))
      (text "deployments")) {
        success = λ model_ref. some (record {
          title = text "Deletion queued";
          description = text "The row disappears once the container is torn down.";
        });
        failure = λ message.
            some (record { title = text "Could not delete deployment"; description = message });
      }

unfoldable pub use_create_policy : MutationOptions
use_create_policy = change post (text "/routing-policies") (text "policies")

unfoldable pub use_update_policy : Text → MutationOptions
use_update_policy id = change patch (text "/routing-policies/" ++ id) (text "policies")

unfoldable pub use_activate_policy : Text → MutationOptions
use_activate_policy id =
    change post (text "/routing-policies/" ++ (id ++ text "/activate")) (text "policies")

unfoldable pub use_delete_policy : Text → MutationOptions
use_delete_policy id = change delete (text "/routing-policies/" ++ id) (text "policies")

unfoldable pub use_create_prompt : MutationOptions
use_create_prompt = change post (text "/prompts") (text "prompts")

unfoldable pub use_update_prompt : Text → MutationOptions
use_update_prompt id = change patch (text "/prompts/" ++ id) (text "prompts")

unfoldable pub use_delete_prompt : Text → MutationOptions
use_delete_prompt id = change delete (text "/prompts/" ++ id) (text "prompts")

unfoldable pub use_create_experiment : MutationOptions
use_create_experiment = change post (text "/experiments") (text "experiments")

unfoldable pub use_delete_experiment : Text → MutationOptions
use_delete_experiment id = change delete (text "/experiments/" ++ id) (text "experiments")

unfoldable pub use_upload_benchmark_dataset : MutationOptions
use_upload_benchmark_dataset =
    record (change post (text "/benchmark-datasets") (text "benchmark-datasets")) {
      timeout_ms = some 120000;
    }

unfoldable pub use_delete_benchmark_dataset : Text → MutationOptions
use_delete_benchmark_dataset id =
    change delete (text "/benchmark-datasets/" ++ id) (text "benchmark-datasets")

unfoldable pub use_start_benchmark_run : MutationOptions
use_start_benchmark_run = change post (text "/benchmarks/run") (text "benchmarks")
