-- ===== src/Wizards/DeployLaws.antt =====
-- What the deployment wizard submits, and how often.
use llmplane.Common.{
  ℕ, ◌+◌, ◌≤◌, ◌≡◌, Bool, true, false, List, [], ◌∷◌, Option, none, some, Text, text_eq, trim,
  is_empty, any, text_methods, length, length-append, All, All-append, if◌then◌else◌, leb, arith,
}
use llmplane.Wizards.Deploy.{
  Event, type_model, pick, type_gpu, edit, toggle_authentication, next, back, click_deploy,
  backends_answer, deployed, rejected, DeployWizard, Payload, ConfigField, is_chosen, is_vllm, set,
  offers, quantizations, protocols, payload, new_wizard, empty_config, step_wizard, run_wizard,
}

-- Each step that has been passed has its field filled in, a wizard that waits for the backend stands
-- on the last step, and the selects hold one of their options.
pub record IsValid (w : DeployWizard) : Type 0 where
  pub in_range : leb w.step 6 ≡ true
  pub has_model : leb 1 w.step ≡ true → is_empty (trim w.model_ref) ≡ false
  pub has_backend : leb 2 w.step ≡ true → is_chosen w.backend_type ≡ true
  pub last_step : w.deploying ≡ true → w.step ≡ 6
  pub waiting : w.pushed ≡ true → w.deploying ≡ true
  pub quantized : any (text_eq w.config.quantization) quantizations ≡ true
  pub protocolled : any (text_eq w.config.protocol) protocols ≡ true

abbrev is_given {ℓ} : {A : Type ℓ} → Option A → Bool
is_given none = false
is_given (some a) = true

abbrev pub waits : DeployWizard → ℕ
waits w = if w.deploying then 1 else 0

abbrev pub rejections : List Event → ℕ
rejections [] = 0
rejections (rejected e ∷ es) = 1 + rejections es
rejections (_ ∷ es) = rejections es

-- Every edit leaves an option in the two selects.
edit-IsValid :
    (w : DeployWizard) (field : ConfigField) (v : Text)
    → IsValid w
    → offers w field v ≡ true
    → IsValid (record w { config = set field v w.config })
unfolding offers set
edit-IsValid w field v h k = ground arith

module _ {N : Type 0} (number : Text → N) where
  step_wizard-IsValid :
      (w : DeployWizard) (e : Event) → IsValid w → IsValid (step_wizard number w e).0
  unfolding step_wizard
  step_wizard-IsValid w (edit field v) h = ground (arith, edit-IsValid w field v h)
  step_wizard-IsValid w (type_model v) h = ground arith
  step_wizard-IsValid w (pick b) h = ground arith
  step_wizard-IsValid w (type_gpu v) h = ground arith
  step_wizard-IsValid w toggle_authentication h = ground arith
  step_wizard-IsValid w next h = ground arith
  step_wizard-IsValid w back h = ground arith
  step_wizard-IsValid w click_deploy h = ground arith
  step_wizard-IsValid w (backends_answer gpu) h = ground arith
  step_wizard-IsValid w deployed h = ground arith
  step_wizard-IsValid w (rejected e) h = ground arith

-- What the backend is owed: a model, a runtime, a GPU exactly for vLLM and the same one twice, and
-- selects with one of their options.
pub record IsSubmittable {N : Type 0} (p : Payload N) : Type 0 where
  pub model_given : is_empty p.sent_model ≡ false
  pub backend_given : is_chosen p.sent_backend ≡ true
  pub gpu_given : is_given p.sent_gpu ≡ is_vllm p.sent_backend
  pub gpu_agrees : p.sent_gpu ≡ p.config_gpu
  pub quantization_offered : any (text_eq p.sent_config.quantization) quantizations ≡ true
  pub protocol_offered : any (text_eq p.sent_config.protocol) protocols ≡ true

new_wizard-IsValid : IsValid new_wizard
unfolding new_wizard empty_config quantizations protocols text_methods
new_wizard-IsValid = ground arith

module _ {N : Type 0} (number : Text → N) where
  payload-IsSubmittable :
      (w : DeployWizard) → IsValid w → w.step ≡ 6 → IsSubmittable (payload number w)
  unfolding payload
  payload-IsSubmittable w h k = ground arith

  step_wizard-sent :
      (w : DeployWizard) (e : Event) → IsValid w → All IsSubmittable (step_wizard number w e).1
  unfolding step_wizard
  step_wizard-sent w click_deploy h = ground (arith, payload-IsSubmittable w h)
  step_wizard-sent w (type_model v) h = tt
  step_wizard-sent w (edit field v) h = tt
  step_wizard-sent w (pick b) h = tt
  step_wizard-sent w (type_gpu v) h = tt
  step_wizard-sent w toggle_authentication h = tt
  step_wizard-sent w next h = tt
  step_wizard-sent w back h = tt
  step_wizard-sent w (backends_answer gpu) h = tt
  step_wizard-sent w deployed h = tt
  step_wizard-sent w (rejected e) h = tt

  run_wizard-sent_from :
      (w : DeployWizard) (es : List Event)
      → IsValid w
      → All IsSubmittable (run_wizard number w es).1 × IsValid (run_wizard number w es).0
  unfolding run_wizard
  run_wizard-sent_from w [] h = (tt, h)
  run_wizard-sent_from w (e ∷ es) h =
      let (sent, valid) =
        run_wizard-sent_from (step_wizard number w e).0 es (step_wizard-IsValid number w e h) in
      (All-append IsSubmittable _ _ (step_wizard-sent w e h) sent, valid)

  -- Whatever the user and the backend do to a new wizard, every request that it sends names a model
  -- that is not blank and a runtime, carries a GPU exactly if the runtime is vLLM, the same one in
  -- both places, and has one of the options on offer for quantization and protocol; and the wizard
  -- stays well-formed.
  pub run_wizard-sent :
      (es : List Event)
      → All IsSubmittable (run_wizard number new_wizard es).1
        × IsValid (run_wizard number new_wizard es).0
  run_wizard-sent es = run_wizard-sent_from new_wizard es new_wizard-IsValid

  step_wizard-once :
      (w : DeployWizard) (e : Event)
      → length (step_wizard number w e).1 + waits w
        ≤ rejections (e ∷ []) + waits (step_wizard number w e).0
  unfolding step_wizard
  step_wizard-once w (type_model v) = ground arith
  step_wizard-once w (edit field v) = ground arith
  step_wizard-once w (pick b) = ground arith
  step_wizard-once w (type_gpu v) = ground arith
  step_wizard-once w toggle_authentication = ground arith
  step_wizard-once w next = ground arith
  step_wizard-once w back = ground arith
  step_wizard-once w click_deploy = ground arith
  step_wizard-once w (backends_answer gpu) = ground arith
  step_wizard-once w deployed = ground arith
  step_wizard-once w (rejected e) = ground arith

  rejections-cons :
      (e : Event) (es : List Event) → rejections (e ∷ es) ≡ rejections (e ∷ []) + rejections es
  rejections-cons e es = ground arith

  -- A run sends at most one request more than the backend has rejected, and then only if the wizard
  -- waits at the end; a wizard that waits at the start sends at most one for each rejection.
  pub run_wizard-once :
      (w : DeployWizard) (es : List Event)
      → length (run_wizard number w es).1 + waits w
        ≤ rejections es + waits (run_wizard number w es).0
  unfolding run_wizard
  run_wizard-once w [] = omega arith
  run_wizard-once w (e ∷ es) =
      let (w1, sent) = step_wizard number w e in
      omega (
        arith,
        step_wizard-once w e,
        rejections-cons e es,
        run_wizard-once w1 es,
        length-append sent (run_wizard number w1 es).1,
      )
