-- ===== src/Widgets/Examples.antt =====
-- The theorem of the charts at a concrete option, with one axis.
use llmplane.Common.{Bool, [], ◌∷◌, text, Dict}
use llmplane.Widgets.Values.{Value, str, record_of}

abbrev never : ⊥ → Bool
never h = elim h [ ]

abbrev nothing : Value ⊥ → Dict (Value ⊥)
nothing v = []

abbrev option : Dict (Value ⊥)
option = (text "xAxis", record_of ((text "type", str (text "category")) ∷ [])) ∷ []

abbrev x_axis : Value ⊥
x_axis = record_of ((text "type", str (text "category")) ∷ [])
