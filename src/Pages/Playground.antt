-- ===== src/Pages/Playground.antt =====
-- The choice of models of frontend/app/(app)/playground/page.tsx, and whether its button is enabled.
use llmplane.Common.{
  Bool, not, ◌||◌, List, [], ◌∷◌, ◌++◌, Option, none, some, Text, text, text_eq, any, keep_if,
  is_empty, if◌then◌else◌,
}

abbrev pub default_models : List Text
default_models = text "gpt-4o" ∷ text "claude-opus-5" ∷ text "gemini-pro" ∷ text "llama3.1-8b" ∷ []

-- The first selection, of the `model` that the address names.
unfoldable pub first_selection : Option Text → List Text
first_selection none = []
first_selection (some m) = if is_empty m then [] else m ∷ []

abbrev pub includes : Text → List Text → Bool
includes m = any (λ x. text_eq x m)

-- A press of a model's button.
unfoldable pub toggle : Text → List Text → List Text
toggle m prev = if includes m prev then keep_if (λ x. not (text_eq x m)) prev else prev ++ m ∷ []

unfoldable pub toggle_all : List Text → List Text → List Text
unfolding toggle
toggle_all [] prev = prev
toggle_all (m ∷ ms) prev = toggle_all ms (toggle m prev)

unfoldable pub run_is_disabled : Text → List Text → Bool
run_is_disabled prompt selected = is_empty prompt || is_empty selected
