-- ===== src/Pages/Rows.antt =====
-- The rows of frontend/app/(app)/providers/page.tsx, prompts/page.tsx, experiments/page.tsx,
-- evaluations/page.tsx and benchmarks/page.tsx beside them. `show`, `locale` and `two_places` print
-- numbers, and `percent_of a b` stands for `Math.round((a / b) * 100)`.
use llmplane.Common.{
  ℕ, zero, suc, Bool, List, [], ◌∷◌, ◌++◌, map, length, Option, none, some, Text, text, text_eq,
  join, is_empty, if◌then◌else◌, ltb, Dict,
}
use llmplane.Display.Status.{ToneClasses, tone_classes, success, warning, danger}
use llmplane.Display.Explorer.{or_undefined}
use llmplane.Widgets.Cards.{Badge, status_badge}

pub record Provider : Type 0 where
  pub id : Text
  pub provider_type : Text
  pub display_name : Text
  pub base_url : Option Text
  pub health_status : Text
  pub last_latency_ms : Option ℕ

pub record ProviderRow : Type 0 where
  pub initial : List ℕ
  pub name : Text
  pub kind : Text
  pub badge : Badge
  pub endpoint : Text
  pub latency : Option Text

-- `s[0]`, as React shows it.
abbrev first_unit : Text → List ℕ
first_unit [] = []
first_unit (c ∷ s) = c ∷ []

-- `s.slice(0, n)`.
unfoldable pub slice_to : ℕ → Text → Text
slice_to zero s = []
slice_to (suc n) [] = []
slice_to (suc n) (c ∷ s) = c ∷ slice_to n s

abbrev or_default : Option Text → Text
or_default none = text "default"
or_default (some s) = if is_empty s then text "default" else s

pub record Prompt : Type 0 where
  pub id : Text
  pub name : Text
  pub description : Text
  pub version : ℕ

pub record Experiment : Type 0 where
  pub id : Text
  pub name : Text
  pub status : Text
  pub runs_count : ℕ

pub record BenchmarkDataset : Type 0 where
  pub id : Text
  pub name : Text
  pub source_format : Text
  pub row_count : ℕ
  pub columns : List Text

pub record BenchmarkRun : Type 0 where
  pub id : Text
  pub dataset_id : Text
  pub status : Text
  pub total_items : ℕ
  pub completed_items : ℕ
  pub error_message : Option Text

pub record RunRow : Type 0 where
  pub name : Text
  pub badge : Badge
  pub progress : Text
  pub bar : Option ℕ
  pub error : Option Text

-- `datasetList.find((d) => d.id === run.dataset_id)?.name`.
unfoldable pub dataset_name_of : Text → List BenchmarkDataset → Option Text
dataset_name_of id [] = none
dataset_name_of id (d ∷ ds) =
    let rest = dataset_name_of id ds in if text_eq d.id id then some d.name else rest

-- `scoreTone`; the tests are `score >= 0.9` and `score >= 0.8`.
unfoldable pub score_tone : {Score : Type 0} → (Score → Bool) → (Score → Bool) → Score → ToneClasses
unfolding tone_classes
score_tone from_nine from_eight score =
    if from_nine score
    then tone_classes success
    else if from_eight score
    then tone_classes warning
    else tone_classes danger

-- The metrics of an evaluation.
unfoldable pub metrics_text : {Num : Type 0} → (Num → Text) → Dict Num → Text
unfolding join
metrics_text two_places metrics =
    join (text ", ") (map (λ (name, value). name ++ (text ": " ++ two_places value)) metrics)

module _ (locale show : ℕ → Text) (percent_of : ℕ → ℕ → ℕ) where
  unfoldable pub provider_row : Provider → ProviderRow
  unfolding status_badge
  provider_row p = record {
    initial = first_unit p.provider_type;
    name = p.display_name;
    kind = p.provider_type;
    badge = status_badge p.health_status none;
    endpoint = or_default p.base_url;
    latency = elim p.last_latency_ms [ none ↦ none | some ms ↦ some (show ms ++ text " ms") ];
  }

  unfoldable pub prompt_row : Prompt → Text × Text
  prompt_row p = (p.name, show p.version ++ (text " versions · " ++ p.description))

  unfoldable pub experiment_row : Experiment → Text × Text × Badge
  unfolding status_badge
  experiment_row e = (e.name, show e.runs_count ++ text " runs", status_badge e.status none)

  unfoldable pub dataset_row : BenchmarkDataset → Text × Text × Text
  dataset_row d = (
    d.source_format,
    d.name,
    locale d.row_count ++ (text " rows · " ++ (show (length d.columns) ++ text " columns")),
  )

  unfoldable pub run_row : List BenchmarkDataset → BenchmarkRun → RunRow
  unfolding status_badge dataset_name_of slice_to or_undefined
  run_row datasets run =
      let pct =
        if ltb 0 run.total_items then percent_of run.completed_items run.total_items else 0 in
      record {
        name = elim (dataset_name_of run.dataset_id datasets) [
          | none ↦ text "Run " ++ slice_to 8 run.id
          | some name ↦ name
        ];
        badge = status_badge run.status none;
        progress =
            locale run.completed_items ++ (text " / " ++ (locale run.total_items ++ text " items"));
        bar = if text_eq run.status (text "running") then some pct else none;
        error = elim run.error_message [ none ↦ none | some s ↦ or_undefined s ];
      }
