-- ===== src/Wizards/ProviderLaws.antt =====
-- What the provider wizard asks of the backend, whatever the user and the answers do.
use llmplane.Common.{
  ◌≡◌, Bool, true, false, Option, none, some, Text, trim, is_empty, leb, if◌then◌else◌,
}
use llmplane.Wizards.Provider.{
  TypeSelection, ProviderWizard, needs_api_key, needs_base_url, sent_type, sent_plugin,
  selected_models,
}
use llmplane.Wizards.ProviderSteps.{Request, create, discover, bulk_confirm, is_offered}

abbrev pub is_given {ℓ} : {A : Type ℓ} → Option A → Bool
is_given none = false
is_given (some a) = true

abbrev offers : Option TypeSelection → Bool
offers none = true
offers (some s) = is_offered s

-- The steps up to the connection have their fields filled in, those after it know the provider, and
-- the chosen type is one of the picker.
pub record IsValid (w : ProviderWizard) : Type 0 where
  pub at_least : leb 1 w.step ≡ true
  pub at_most : leb w.step 5 ≡ true
  pub named : leb 2 w.step ≡ true → leb w.step 3 ≡ true → is_empty (trim w.display_name) ≡ false
  pub chosen : w.step ≡ 3 → is_given w.selection ≡ true
  pub known : leb 4 w.step ≡ true → is_given w.provider_id ≡ true
  pub offered : offers w.selection ≡ true

-- What `needs` asks for, of a field.
abbrev pub only_if : Bool → Text → Option Text
only_if needs v = if needs then some v else none

-- A request that is sent in the state `w`. A creation has the name that was typed, which is not blank,
-- is of the chosen type, which is one of the picker, and has the key and the address of the form exactly
-- if that type requires them; a discovery and a confirmation are of a provider, the confirmation has
-- the ticked models, of which there are some.
abbrev pub IsRequest : ProviderWizard → Request → Type 0
IsRequest w (create c) =
    (c.sent_name ≡ trim w.display_name)
    × (is_empty c.sent_name ≡ false)
    × ((s : TypeSelection) × (w.selection ≡ some s)
        × (is_offered s ≡ true)
        × (c.provider_type ≡ sent_type s)
        × (c.plugin_id ≡ sent_plugin s)
        × (c.sent_key ≡ only_if (needs_api_key (some s)) w.api_key)
        × (c.sent_url ≡ only_if (needs_base_url (some s)) w.base_url))
IsRequest w (discover id) = Unit
IsRequest w (bulk_confirm id models) =
    (w.provider_id ≡ some id) × (models ≡ selected_models w.rows) × (is_empty models ≡ false)
