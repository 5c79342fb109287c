-- ===== src/Wizards/ProviderLate.antt =====
-- Answers that arrive late, after the provider wizard was closed or started again.
use llmplane.Common.{ℕ, ◌≡◌, refl, ap, true, false, List, [], ◌∷◌, none, some, Text, map, arith}
use llmplane.Wizards.Provider.{
  plugin, PluginManifest, DiscoveredModel, ProviderWizard, reset, handle_close, create_input,
  selected_models, can_proceed3,
}
use llmplane.Wizards.ProviderSteps.{
  create, discover, bulk_confirm, open_wizard, close, connect, review, finish, created, discovered,
  shows, is_waiting_for, is_discovering, settled, to_row, run_discovery, handle_create_provider,
  on_created, handle_confirm, step_wizard, run_wizard,
}

-- A wizard that creates a provider for a plugin, is closed before the answer, and is opened again
-- after it, stands on the fourth step with the old provider, its name and type forgotten, and a
-- discovery has been sent while it was closed.
pub created-after_close :
    (w : ProviderWizard) (m : PluginManifest) (id : Text)
    → shows w 3 ≡ true
    → can_proceed3 w ≡ true
    → w.creating ≡ none
    → w.selection ≡ some (plugin m)
    → let late = run_wizard w (connect ∷ close ∷ created id ∷ open_wizard ∷ []) in
      (late.0.step ≡ 4)
      × (late.0.provider_id ≡ some id)
      × (late.0.display_name ≡ [])
      × (late.0.selection ≡ none)
      × (late.1 ≡ create (create_input (plugin m) w) ∷ discover id ∷ [])
unfolding run_wizard step_wizard handle_create_provider on_created run_discovery handle_close reset
    shows
created-after_close w m id h c k e = ground arith

selected_models-to_row : (ms : List DiscoveredModel) → selected_models (map to_row ms) ≡ ms
unfolding selected_models to_row
selected_models-to_row [] = refl
selected_models-to_row (m ∷ ms) = ap (λ xs. m ∷ xs) (selected_models-to_row ms)

-- The answer to any discovery under way fills the rows, whichever provider it was for; the
-- confirmation then sends those models under the provider of the wizard.
discovered-confirmed :
    (w : ProviderWizard) (n : ℕ) (id : Text) (d : DiscoveredModel) (ds : List DiscoveredModel)
    → shows w 4 ≡ true
    → is_waiting_for n w ≡ true
    → is_discovering (settled n w) ≡ false
    → w.confirming ≡ false
    → w.provider_id ≡ some id
    → (run_wizard w (discovered n (d ∷ ds) ∷ review ∷ finish ∷ [])).1
      ≡ bulk_confirm id (d ∷ ds) ∷ []
unfolding run_wizard step_wizard handle_confirm shows is_discovering settled to_row
discovered-confirmed w n id d ds h k q c e = ground (arith, selected_models-to_row (d ∷ ds))
