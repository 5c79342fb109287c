-- ===== src/Widgets/Values.antt =====
-- The values of an ECharts option. `A` is the type of the values that are neither texts, arrays nor
-- plain objects: numbers, null, functions and the like.
use llmplane.Common.{List, [], ◌∷◌, Text, Dict}

mutual
  pub data Value (A : Type 0) : Type 0 where
    atom : A → Value A
    str : Text → Value A
    array : Items A → Value A
    object : Fields A → Value A

  pub data Items (A : Type 0) : Type 0 where
    nil : Items A
    cons : Value A → Items A → Items A

  pub data Fields (A : Type 0) : Type 0 where
    end : Fields A
    field : Text → Value A → Fields A → Fields A

module _ {A : Type 0} where
  abbrev pub dict_of : Fields A → Dict (Value A)
  dict_of end = []
  dict_of (field k v fs) = (k, v) ∷ dict_of fs

  abbrev pub fields_of : Dict (Value A) → Fields A
  fields_of [] = end
  fields_of ((k, v) ∷ m) = field k v (fields_of m)

  abbrev pub items_of : List (Value A) → Items A
  items_of [] = nil
  items_of (v ∷ vs) = cons v (items_of vs)

  abbrev pub list_of : Items A → List (Value A)
  list_of nil = []
  list_of (cons v vs) = v ∷ list_of vs

  abbrev pub record_of : Dict (Value A) → Value A
  record_of m = object (fields_of m)
