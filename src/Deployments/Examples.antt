-- ===== src/Deployments/Examples.antt =====
-- The theorems of the deployments' pages at a concrete session.
use llmplane.Common.{ℕ, ◌≡◌, ◌⊎◌, refl, false, List, [], ◌∷◌, Option, none, some, text, Has}
use llmplane.Deployments.Model.{Deployment, ollama, running, stop, restart, delete_request}
use llmplane.Deployments.Screens.{ListPage, ListEvent, list_run, DetailEvent, detail_run}
use llmplane.Deployments.ScreenLaws.{Confirmed, Offered, list_run-Confirmed}
use llmplane.Deployments.DetailLaws.{on_list, detail_run-list_run}

abbrev llama : Deployment ℕ
llama = record {
  id = text "d1";
  project_id = text "p";
  provider_id = text "v";
  backend_type = ollama;
  model_ref = text "llama3";
  status = running;
  container_id = none;
  gpu_index = none;
  port = some 11434;
  error_message = none;
  download_progress_pct = none;
  config = none;
  created_at = text "2025-01-01";
}

abbrev session : List (ListEvent ℕ)
session =
    ListEvent.acts llama stop
    ∷ ListEvent.acts llama restart
    ∷ ListEvent.asks_delete llama
    ∷ ListEvent.settles
    ∷ ListEvent.confirms
    ∷ []

abbrev idle : ListPage ℕ
idle = record { pending_delete = none; is_busy = false }

list_run-Confirmed_example :
    (Has (delete_request (text "d1") none) (list_run idle session).1
      → Offered (delete_request (text "d1") none) session
        ⊎ Confirmed (delete_request (text "d1") none) session)
    × (Confirmed (delete_request (text "d1") none) session
        → Has (delete_request (text "d1") none) (list_run idle session).1)
list_run-Confirmed_example = list_run-Confirmed (delete_request (text "d1") none) false session

abbrev visit : List (Option (List (Deployment ℕ)) × DetailEvent)
visit =
    (some (llama ∷ []), DetailEvent.acts stop)
    ∷ (some (llama ∷ []), DetailEvent.asks_delete)
    ∷ (some (llama ∷ []), DetailEvent.dialog_changes false)
    ∷ (some [], DetailEvent.settles)
    ∷ []

detail_run-list_run_example :
    (detail_run (text "d1") (record { confirm_delete = false; is_busy = false }) visit).1
    ≡ (list_run idle (on_list (text "d1") visit)).1
detail_run-list_run_example =
    detail_run-list_run (text "d1") false visit (tt, (tt, (refl, (tt, tt))))
