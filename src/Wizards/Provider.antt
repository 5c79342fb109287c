-- ===== src/Wizards/Provider.antt =====
-- The state of the component `ProviderWizard` of frontend/components/provider-wizard.tsx, what the
-- chosen type requires, and the bodies of its requests, whose types are those of
-- frontend/hooks/useProviders.ts.
use llmplane.Common.{
  ℕ, zero, suc, Bool, true, false, not, ◌&&◌, ◌||◌, List, [], ◌∷◌, Option, none, some, Text, text,
  text_eq, trim, is_empty, map, keep_if, if◌then◌else◌,
}

pub data AuthType : Type 0 where
  api_key_auth no_auth bearer_auth : AuthType

-- `PluginManifest`, less its capabilities and prices, which the wizard does not read.
pub record PluginManifest : Type 0 where
  pub plugin_key : Text
  pub auth_type : AuthType
  pub default_base_url : Option Text
  pub requires_base_url : Bool

pub data TypeSelection : Type 0 where
  first_party : Text → TypeSelection
  plugin : PluginManifest → TypeSelection

pub record DiscoveredModel : Type 0 where
  pub model_id : Text
  pub model_name : Text
  pub context_window : Option ℕ
  pub capabilities : List Text

pub record DiscoveredRow : Type 0 where
  pub model : DiscoveredModel
  pub selected : Bool

unfoldable pub first_party_types : List Text
first_party_types =
    text "openai"
    ∷ text "anthropic"
    ∷ text "gemini"
    ∷ text "groq"
    ∷ text "mistral"
    ∷ text "cohere"
    ∷ text "openrouter"
    ∷ text "azure_openai"
    ∷ text "aws_bedrock"
    ∷ text "ollama"
    ∷ text "vllm"
    ∷ []

unfoldable pub is_local_type : Text → Bool
is_local_type t = text_eq t (text "ollama") || text_eq t (text "vllm")

unfoldable pub needs_base_url : Option TypeSelection → Bool
unfolding is_local_type
needs_base_url (some (plugin m)) = m.requires_base_url
needs_base_url (some (first_party t)) = is_local_type t
needs_base_url none = false

abbrev needs_credential : AuthType → Bool
needs_credential no_auth = false
needs_credential _ = true

unfoldable pub needs_api_key : Option TypeSelection → Bool
unfolding is_local_type
needs_api_key (some (plugin m)) = needs_credential m.auth_type
needs_api_key (some (first_party t)) = not (is_local_type t)
needs_api_key none = false

abbrev pub is_plugin : Option TypeSelection → Bool
is_plugin (some (plugin m)) = true
is_plugin _ = false

-- The component's state, with the requests that are under way: whether the creation was started for a
-- plugin, the discoveries with their numbers (the last is number `calls`), and the confirmation.
pub record ProviderWizard : Type 0 where
  pub is_open : Bool
  pub step : ℕ
  pub display_name : Text
  pub selection : Option TypeSelection
  pub api_key : Text
  pub base_url : Text
  pub create_error : Option Text
  pub provider_id : Option Text
  pub rows : List DiscoveredRow
  pub discover_error : Option Text
  pub creating : Option Bool
  pub calls : ℕ
  pub discovering : List (ℕ × Text)
  pub confirming : Bool

unfoldable pub reset : ProviderWizard → ProviderWizard
reset w = record w {
  step = 1;
  display_name = [];
  selection = none;
  api_key = [];
  base_url = [];
  create_error = none;
  provider_id = none;
  rows = [];
  discover_error = none;
}

unfoldable pub handle_close : ProviderWizard → ProviderWizard
unfolding reset
handle_close w = record (reset w) { is_open = false }

unfoldable pub new_wizard : ProviderWizard
new_wizard = record {
  is_open = false;
  step = 1;
  display_name = [];
  selection = none;
  api_key = [];
  base_url = [];
  create_error = none;
  provider_id = none;
  rows = [];
  discover_error = none;
  creating = none;
  calls = 0;
  discovering = [];
  confirming = false;
}

-- An empty default address is not taken over.
unfoldable pub default_url : TypeSelection → Text
default_url (first_party t) = []
default_url (plugin m) = elim m.default_base_url [ none ↦ [] | some url ↦ url ]

unfoldable pub select_type : TypeSelection → ProviderWizard → ProviderWizard
unfolding default_url
select_type s w = record w { selection = some s; base_url = default_url s }

pub record CreateInput : Type 0 where
  pub sent_name : Text
  pub provider_type : Text
  pub plugin_id : Option Text
  pub sent_key : Option Text
  pub sent_url : Option Text

abbrev pub sent_type : TypeSelection → Text
sent_type (first_party t) = t
sent_type (plugin m) = text "custom"

abbrev pub sent_plugin : TypeSelection → Option Text
sent_plugin (first_party t) = none
sent_plugin (plugin m) = some m.plugin_key

-- `required && value ? value : undefined`.
abbrev pub if_required : Bool → Text → Option Text
if_required required value = if required && not (is_empty value) then some value else none

unfoldable pub create_input : TypeSelection → ProviderWizard → CreateInput
unfolding needs_api_key needs_base_url
create_input s w = record {
  sent_name = trim w.display_name;
  provider_type = sent_type s;
  plugin_id = sent_plugin s;
  sent_key = if_required (needs_api_key w.selection) w.api_key;
  sent_url = if_required (needs_base_url w.selection) w.base_url;
}

-- `updateRow`, with the patch as a function.
unfoldable pub update_row :
    ℕ → (DiscoveredRow → DiscoveredRow) → List DiscoveredRow → List DiscoveredRow
update_row i patch [] = []
update_row zero patch (r ∷ rs) = patch r ∷ rs
update_row (suc i) patch (r ∷ rs) = r ∷ update_row i patch rs

abbrev is_selected : DiscoveredRow → Bool
is_selected r = r.selected

abbrev model_of : DiscoveredRow → DiscoveredModel
model_of r = r.model

unfoldable pub selected_models : List DiscoveredRow → List DiscoveredModel
selected_models rows = map model_of (keep_if is_selected rows)

unfoldable pub can_proceed1 : ProviderWizard → Bool
can_proceed1 w = not (is_empty (trim w.display_name))

unfoldable pub can_proceed2 : ProviderWizard → Bool
can_proceed2 w = elim w.selection [ none ↦ false | some s ↦ true ]

unfoldable pub can_proceed3 : ProviderWizard → Bool
unfolding needs_api_key needs_base_url
can_proceed3 w =
    (not (needs_api_key w.selection) || not (is_empty (trim w.api_key)))
    && (not (needs_base_url w.selection) || not (is_empty (trim w.base_url)))
