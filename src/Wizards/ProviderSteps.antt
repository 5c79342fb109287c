-- ===== src/Wizards/ProviderSteps.antt =====
-- The handlers of the component `ProviderWizard` of frontend/components/provider-wizard.tsx, and what
-- follows the answers to its requests.
use llmplane.Common.{
  ℕ, ◌+◌, ◌-◌, Bool, true, false, not, ◌&&◌, ◌||◌, List, [], ◌∷◌, ◌++◌, Option, none, some, Text,
  text, text_eq, is_empty, any, map, keep_if, if◌then◌else◌, ◌==◌,
}
use llmplane.Wizards.Provider.{
  TypeSelection, first_party, plugin, DiscoveredModel, DiscoveredRow, ProviderWizard, CreateInput,
  first_party_types, is_plugin, needs_api_key, needs_base_url, handle_close, select_type,
  create_input, update_row, selected_models, can_proceed1, can_proceed2, can_proceed3,
}

-- What is sent: the creation, a discovery, and the confirmation of models.
pub data Request : Type 0 where
  create : CreateInput → Request
  discover : Text → Request
  bulk_confirm : Text → List DiscoveredModel → Request

-- The controls, then the answers; a discovery's answer carries the number of its call.
pub data Event : Type 0 where
  open_wizard close next back connect retry review finish : Event
  type_name type_key type_url : Text → Event
  choose : TypeSelection → Event
  tick : ℕ → Bool → Event
  rename : ℕ → Text → Event
  created : Text → Event
  create_failed : Option Text → Event
  discovered : ℕ → List DiscoveredModel → Event
  discover_failed : ℕ → Option Text → Event
  confirmed confirm_failed : Event

-- The first-party types are those of the picker; the plugins come from the backend.
unfoldable pub is_offered : TypeSelection → Bool
unfolding first_party_types
is_offered (first_party t) = any (text_eq t) first_party_types
is_offered (plugin m) = true

-- Whether a control of the step is on the page.
unfoldable pub shows : ProviderWizard → ℕ → Bool
shows w n = w.is_open && w.step == n

unfoldable pub run_discovery : Text → ProviderWizard → ProviderWizard × List Request
run_discovery id w = (
  record w {
    discover_error = none;
    calls = w.calls + 1;
    discovering = (w.calls + 1, id) ∷ w.discovering;
  },
  discover id ∷ [],
)

-- `discoverModels.isPending`: it speaks of the last call.
unfoldable pub is_discovering : ProviderWizard → Bool
is_discovering w = any (λ (n, id). n == w.calls) w.discovering

unfoldable pub is_waiting_for : ℕ → ProviderWizard → Bool
is_waiting_for n w = any (λ (m, id). m == n) w.discovering

unfoldable pub settled : ℕ → ProviderWizard → ProviderWizard
settled n w = record w { discovering = keep_if (λ (m, id). not (m == n)) w.discovering }

unfoldable pub to_row : DiscoveredModel → DiscoveredRow
to_row m = record { model = m; selected = true }

unfoldable pub message_or : Text → Option Text → Text
message_or message none = message
message_or message (some m) = m

unfoldable pub handle_create_provider : ProviderWizard → ProviderWizard × List Request
unfolding create_input
handle_create_provider w = elim w.selection [
  | none ↦ (w, [])
  | some s ↦ (
    record w { create_error = none; creating = some (is_plugin w.selection) },
    create (create_input s w) ∷ [],
  )
]

-- What follows the creation: `for_plugin` is what the wizard had when it was started.
unfoldable pub on_created : Bool → Text → ProviderWizard → ProviderWizard × List Request
unfolding run_discovery handle_close
on_created for_plugin id w =
    let w1 = record w { creating = none; provider_id = some id } in
    if for_plugin then run_discovery id (record w1 { step = 4 }) else (handle_close w1, [])

unfoldable pub handle_confirm : ProviderWizard → ProviderWizard × List Request
unfolding selected_models handle_close
handle_confirm w = elim w.provider_id [
  | none ↦ (w, [])
  | some id ↦
      if is_empty (selected_models w.rows)
      then (handle_close w, [])
      else (record w { confirming = true }, bulk_confirm id (selected_models w.rows) ∷ [])
]

unfoldable pub on_next : ProviderWizard → ProviderWizard
unfolding shows can_proceed1 can_proceed2
on_next w =
    if shows w 1 && can_proceed1 w
    then record w { step = 2 }
    else if shows w 2 && can_proceed2 w
    then record w { step = 3 }
    else w

-- The discovery is offered again once the last one has failed.
unfoldable pub on_retry : ProviderWizard → ProviderWizard × List Request
unfolding shows is_discovering run_discovery
on_retry w = elim w.provider_id [
  | none ↦ (w, [])
  | some id ↦ elim w.discover_error [
    | none ↦ (w, [])
    | some m ↦ if shows w 4 && not (is_discovering w) then run_discovery id w else (w, [])
  ]
]

-- Whether the rows are on the page.
unfoldable pub shows_rows : ProviderWizard → Bool
unfolding shows is_discovering
shows_rows w =
    shows w 4 && not (is_discovering w) && elim w.discover_error [ none ↦ true | some m ↦ false ]

abbrev quietly : ProviderWizard → ProviderWizard × List Request
quietly w = (w, [])

-- An event without effect is one whose control is not there, or which answers no request.
unfoldable pub step_wizard : ProviderWizard → Event → ProviderWizard × List Request
unfolding handle_close select_type update_row can_proceed3 is_offered shows is_discovering
    is_waiting_for shows_rows needs_api_key needs_base_url settled to_row message_or
    handle_create_provider on_created handle_confirm on_next on_retry
step_wizard w open_wizard = quietly (record w { is_open = true })
step_wizard w close = quietly (if w.is_open then handle_close w else w)
step_wizard w next = quietly (on_next w)
step_wizard w back = quietly (if shows w 2 || shows w 3 then record w { step = w.step - 1 } else w)
step_wizard w (type_name v) = quietly (if shows w 1 then record w { display_name = v } else w)
step_wizard w (choose s) = quietly (if shows w 2 && is_offered s then select_type s w else w)
step_wizard w (type_key v) =
    quietly (if shows w 3 && needs_api_key w.selection then record w { api_key = v } else w)
step_wizard w (type_url v) =
    quietly (if shows w 3 && needs_base_url w.selection then record w { base_url = v } else w)
step_wizard w connect = elim w.creating [
  | some b ↦ (w, [])
  | none ↦ if shows w 3 && can_proceed3 w then handle_create_provider w else (w, [])
]
step_wizard w (created id) = elim w.creating [
  | none ↦ (w, [])
  | some for_plugin ↦ on_created for_plugin id w
]
step_wizard w (create_failed e) = elim w.creating [
  | none ↦ (w, [])
  | some b ↦ quietly (record w {
    creating = none;
    create_error = some (message_or (text "Failed to create provider.") e);
  })
]
step_wizard w (discovered n models) =
    quietly (if is_waiting_for n w then record (settled n w) { rows = map to_row models } else w)
step_wizard w (discover_failed n e) = quietly (
    if is_waiting_for n w
    then record (settled n w) {
      discover_error = some (message_or (text "Failed to discover models from this endpoint.") e);
    }
    else w)
step_wizard w retry = on_retry w
step_wizard w (tick i b) = quietly (
    if shows_rows w
    then record w { rows = update_row i (λ r. record r { selected = b }) w.rows }
    else w)
step_wizard w (rename i v) = quietly (
    if shows_rows w
    then record w {
      rows = update_row i (λ r. record r { model = record (r.model) { model_name = v } }) w.rows;
    }
    else w)
step_wizard w review =
    quietly
      (if shows w 4 && not (is_discovering w || is_empty w.rows) then record w { step = 5 } else w)
step_wizard w finish = if shows w 5 && not w.confirming then handle_confirm w else (w, [])
step_wizard w confirmed =
    quietly (if w.confirming then record (handle_close w) { confirming = false } else w)
step_wizard w confirm_failed = quietly (record w { confirming = false })

unfoldable pub run_wizard : ProviderWizard → List Event → ProviderWizard × List Request
unfolding step_wizard
run_wizard w [] = (w, [])
run_wizard w (e ∷ es) =
    let (w1, sent) = step_wizard w e in let (w2, later) = run_wizard w1 es in (w2, sent ++ later)
