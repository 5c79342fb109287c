-- ===== src/Wizards/Deploy.antt =====
-- The component `DeploymentWizard` of frontend/components/deployment/DeploymentWizard.tsx: its state,
-- and what each control does while it is on the page. `Number` is a parameter: the wizard only passes
-- its result on.
use llmplane.Common.{
  ℕ, ◌+◌, ◌-◌, Bool, true, false, not, ◌&&◌, List, [], ◌∷◌, ◌++◌, Option, none, some, Text, text,
  text_eq, trim, is_empty, any, if◌then◌else◌, ltb, ◌==◌,
}

-- `"ollama" | "vllm" | ""`.
pub data Backend : Type 0 where
  no_backend ollama vllm : Backend

pub record WizardConfig : Type 0 where
  pub context_length : Text
  pub batch_size : Text
  pub quantization : Text
  pub tensor_parallelism : Text
  pub gpu_memory_utilization : Text
  pub protocol : Text
  pub authentication : Bool
  pub health_liveness : Text
  pub health_readiness : Text
  pub health_startup : Text

unfoldable pub empty_config : WizardConfig
empty_config = record {
  context_length = text "4096";
  batch_size = text "32";
  quantization = text "none";
  tensor_parallelism = text "1";
  gpu_memory_utilization = text "0.9";
  protocol = text "http";
  authentication = false;
  health_liveness = text "/health";
  health_readiness = text "/health/ready";
  health_startup = text "/health";
}

-- `STEPS.length`.
unfoldable pub steps_length : ℕ
steps_length = 7

pub record DeployWizard : Type 0 where
  pub step : ℕ
  pub model_ref : Text
  pub backend_type : Backend
  pub gpu_index : Text
  pub config : WizardConfig
  pub deploying : Bool
  pub error : Option Text
  -- Whether the wizard has left for the list of deployments.
  pub pushed : Bool
  -- `backends?.gpu_available ?? false`, as the query last answered.
  pub gpu_available : Bool

unfoldable pub new_wizard : DeployWizard
new_wizard = record {
  step = 0;
  model_ref = [];
  backend_type = no_backend;
  gpu_index = text "0";
  config = empty_config;
  deploying = false;
  error = none;
  pushed = false;
  gpu_available = false;
}

-- The text fields that `set` writes from an input or a select.
pub data ConfigField : Type 0 where
  the_context_length the_batch_size the_quantization the_tensor_parallelism : ConfigField
  the_gpu_memory_utilization the_protocol the_liveness the_readiness the_startup : ConfigField

unfoldable pub set : ConfigField → Text → WizardConfig → WizardConfig
set the_context_length v c = record c { context_length = v }
set the_batch_size v c = record c { batch_size = v }
set the_quantization v c = record c { quantization = v }
set the_tensor_parallelism v c = record c { tensor_parallelism = v }
set the_gpu_memory_utilization v c = record c { gpu_memory_utilization = v }
set the_protocol v c = record c { protocol = v }
set the_liveness v c = record c { health_liveness = v }
set the_readiness v c = record c { health_readiness = v }
set the_startup v c = record c { health_startup = v }

abbrev pub is_vllm : Backend → Bool
is_vllm vllm = true
is_vllm _ = false

abbrev pub is_chosen : Backend → Bool
is_chosen no_backend = false
is_chosen _ = true

unfoldable pub can_advance : DeployWizard → Bool
can_advance w =
    if w.step == 0
    then not (is_empty (trim w.model_ref))
    else if w.step == 1
    then is_chosen w.backend_type
    else true

unfoldable pub quantizations : List Text
quantizations = text "none" ∷ text "fp8" ∷ text "int8" ∷ text "int4" ∷ text "awq" ∷ text "gptq" ∷ []

unfoldable pub protocols : List Text
protocols = text "http" ∷ text "https" ∷ text "grpc" ∷ []

-- Whether the step shows a control that writes the value to the field.
unfoldable pub offers : DeployWizard → ConfigField → Text → Bool
unfolding quantizations protocols
offers w the_quantization v = w.step == 3 && any (text_eq v) quantizations
offers w the_protocol v = w.step == 4 && any (text_eq v) protocols
offers w the_tensor_parallelism v = if w.step == 2 then is_vllm w.backend_type else w.step == 3
offers w the_liveness v = w.step == 5
offers w the_readiness v = w.step == 5
offers w the_startup v = w.step == 5
offers w field v = w.step == 3

-- What happens: the controls, and the answers of the backend. The Cancel buttons, which leave the page
-- and change nothing else, are left out.
pub data Event : Type 0 where
  type_model : Text → Event
  pick : Backend → Event
  type_gpu : Text → Event
  edit : ConfigField → Text → Event
  toggle_authentication next back click_deploy : Event
  backends_answer : Bool → Event
  deployed : Event
  rejected : Option Text → Event

unfoldable pub can_pick : DeployWizard → Backend → Bool
can_pick w no_backend = false
can_pick w ollama = w.step == 1
can_pick w vllm = w.step == 1 && w.gpu_available

-- `Math.min(s + 1, STEPS.length - 1)`.
unfoldable pub next_step : ℕ → ℕ
unfolding steps_length
next_step s = if ltb (s + 1) (steps_length - 1) then s + 1 else steps_length - 1

unfoldable pub deploy_error : Option Text → Text
deploy_error (some message) = message
deploy_error none = text "Deployment failed."

-- The body of `createDeployment.mutateAsync`.
pub record Payload (N : Type 0) : Type 0 where
  pub sent_backend : Backend
  pub sent_model : Text
  pub sent_gpu : Option N
  pub sent_config : WizardConfig
  pub config_gpu : Option N

module _ {N : Type 0} (number : Text → N) where
  unfoldable pub payload : DeployWizard → Payload N
  payload w =
      let gpu = if is_vllm w.backend_type then some (number w.gpu_index) else none in
      record {
        sent_backend = w.backend_type;
        sent_model = trim w.model_ref;
        sent_gpu = gpu;
        sent_config = w.config;
        config_gpu = gpu;
      }

  -- One event: the new state, and the request sent, if any.
  unfoldable pub step_wizard : DeployWizard → Event → DeployWizard × List (Payload N)
  unfolding can_advance offers can_pick next_step deploy_error payload
  step_wizard w (type_model v) = (if w.step == 0 then record w { model_ref = v } else w, [])
  step_wizard w (pick b) = (if can_pick w b then record w { backend_type = b } else w, [])
  step_wizard w (type_gpu v) =
      (if w.step == 2 && is_vllm w.backend_type then record w { gpu_index = v } else w, [])
  step_wizard w (edit field v) =
      (if offers w field v then record w { config = set field v w.config } else w, [])
  step_wizard w toggle_authentication =
      let c = w.config in
      (
        if w.step == 4
            then record w { config = record c { authentication = not (c.authentication) } }
            else w,
        [],
      )
  step_wizard w next =
      (if not (w.step == 6) && can_advance w then record w { step = next_step w.step } else w, [])
  step_wizard w back =
      (if w.step == 6 && w.deploying then w else record w { step = w.step - 1 }, [])
  step_wizard w click_deploy =
      if w.step == 6 && not w.deploying
      then (record w { deploying = true; error = none }, payload w ∷ [])
      else (w, [])
  step_wizard w (backends_answer gpu) = (record w { gpu_available = gpu }, [])
  step_wizard w deployed = (if w.deploying then record w { pushed = true } else w, [])
  step_wizard w (rejected e) = (
    if w.deploying && not w.pushed
        then record w { deploying = false; error = some (deploy_error e) }
        else w,
    [],
  )

  -- The requests of a run, in order, and its last state.
  unfoldable pub run_wizard : DeployWizard → List Event → DeployWizard × List (Payload N)
  unfolding step_wizard
  run_wizard w [] = (w, [])
  run_wizard w (e ∷ es) =
      let (w1, sent) = step_wizard w e in let (w2, later) = run_wizard w1 es in (w2, sent ++ later)
