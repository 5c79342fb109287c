-- ===== src/Wizards/Examples.antt =====
-- The theorems of this component at concrete runs of the two wizards.
use llmplane.Common.{
  ◌+◌, ◌≤◌, ◌≡◌, refl, true, false, List, [], ◌∷◌, length, none, some, Text, text, text_methods,
  All,
}
use llmplane.Wizards.Deploy
use llmplane.Wizards.DeployLaws
use llmplane.Wizards.Provider.{
  ProviderWizard, PluginManifest, DiscoveredModel, plugin, no_auth, new_wizard, create_input,
  can_proceed3,
}
use llmplane.Wizards.ProviderSteps
use llmplane.Wizards.ProviderLaws
use llmplane.Wizards.ProviderLate.{created-after_close}

abbrev deploying : List Deploy.Event
deploying =
    Deploy.type_model (text "llama3")
    ∷ Deploy.next
    ∷ Deploy.pick Deploy.ollama
    ∷ Deploy.next
    ∷ Deploy.next
    ∷ Deploy.next
    ∷ Deploy.next
    ∷ Deploy.next
    ∷ Deploy.click_deploy
    ∷ Deploy.rejected none
    ∷ Deploy.click_deploy
    ∷ Deploy.deployed
    ∷ []

abbrev same_text : Text → Text
same_text s = s

run_wizard-sent_example :
    All DeployLaws.IsSubmittable (Deploy.run_wizard same_text Deploy.new_wizard deploying).1
    × DeployLaws.IsValid (Deploy.run_wizard same_text Deploy.new_wizard deploying).0
run_wizard-sent_example = DeployLaws.run_wizard-sent same_text deploying

run_wizard-once_example :
    length (Deploy.run_wizard same_text Deploy.new_wizard deploying).1
      + DeployLaws.waits Deploy.new_wizard
    ≤ DeployLaws.rejections deploying
      + DeployLaws.waits (Deploy.run_wizard same_text Deploy.new_wizard deploying).0
run_wizard-once_example = DeployLaws.run_wizard-once same_text Deploy.new_wizard deploying

-- The run does send twice: once again after the rejection.
sent_twice : length (Deploy.run_wizard same_text Deploy.new_wizard deploying).1 ≡ 2
unfolding Deploy.run_wizard Deploy.new_wizard text_methods
sent_twice = refl

abbrev local_plugin : PluginManifest
local_plugin = record {
  plugin_key = text "vllm";
  auth_type = no_auth;
  default_base_url = none;
  requires_base_url = false;
}

abbrev filling_in : List ProviderSteps.Event
filling_in =
    ProviderSteps.open_wizard
    ∷ ProviderSteps.type_name (text "Local")
    ∷ ProviderSteps.next
    ∷ ProviderSteps.choose (plugin local_plugin)
    ∷ ProviderSteps.next
    ∷ []

abbrev adding : List ProviderSteps.Event
adding =
    ProviderSteps.open_wizard
    ∷ ProviderSteps.type_name (text "Local")
    ∷ ProviderSteps.next
    ∷ ProviderSteps.choose (plugin local_plugin)
    ∷ ProviderSteps.next
    ∷ ProviderSteps.connect
    ∷ ProviderSteps.created (text "p1")
    ∷ []

-- The run creates the provider and asks for its models.
sends_both : length (ProviderSteps.run_wizard new_wizard adding).1 ≡ 2
unfolding ProviderSteps.run_wizard new_wizard text_methods
sends_both = refl

abbrev third_step : ProviderWizard
third_step = record {
  is_open = true;
  step = 3;
  display_name = text "Local";
  selection = some (plugin local_plugin);
  api_key = [];
  base_url = [];
  create_error = none;
  provider_id = none;
  rows = [];
  discover_error = none;
  creating = none;
  calls = 0;
  discovering = [];
  confirming = false;
}

created-after_close_example :
    let late = ProviderSteps.run_wizard third_step (
      ProviderSteps.connect
      ∷ ProviderSteps.close
      ∷ ProviderSteps.created (text "p1")
      ∷ ProviderSteps.open_wizard
      ∷ []) in
    (late.0.step ≡ 4)
    × (late.0.provider_id ≡ some (text "p1"))
    × (late.0.display_name ≡ [])
    × (late.0.selection ≡ none)
    × (late.1
        ≡ ProviderSteps.create (create_input (plugin local_plugin) third_step)
          ∷ ProviderSteps.discover (text "p1")
          ∷ [])
unfolding can_proceed3 ProviderSteps.shows text_methods
created-after_close_example =
    created-after_close third_step local_plugin (text "p1") refl refl refl refl

-- The wizard has been started again for the provider p2: the discovery of p1 is still under way, that
-- of p2 has been answered.
abbrev fourth_step : ProviderWizard
fourth_step = record third_step {
  step = 4;
  provider_id = some (text "p2");
  calls = 2;
  discovering = (1, text "p1") ∷ [];
}

abbrev model_of_p1 : DiscoveredModel
model_of_p1 = record {
  model_id = text "m1";
  model_name = text "m1";
  context_window = none;
  capabilities = [];
}
