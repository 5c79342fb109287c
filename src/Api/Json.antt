-- ===== src/Api/Json.antt =====
-- JSON values as `JSON.parse` makes them, and the conversions to text that `Array.join` applies. A
-- number is kept as the text that `String(n)` gives: the sources modelled here only print it.
use llmplane.Common.{
  Bool, true, false, List, [], ◌∷◌, Option, none, some, Text, text, text_eq, join, if◌then◌else◌,
}

mutual
  pub data Json : Type 0 where
    null : Json
    bool : Bool → Json
    num : Text → Json
    str : Text → Json
    arr : Items → Json
    obj : Fields → Json

  pub data Items : Type 0 where
    nil : Items
    cons : Json → Items → Items

  pub data Fields : Type 0 where
    end : Fields
    field : Text → Json → Fields → Fields

-- `rec[key]`; `undefined` is `none`. The keys of a parsed object are distinct.
unfoldable pub get_field : Text → Fields → Option Json
get_field key end = none
get_field key (field k v fs) = if text_eq k key then some v else get_field key fs

-- `a ?? b`, where `undefined` is `none`.
unfoldable pub or_else : Option Json → Option Json → Option Json
or_else (some null) b = b
or_else none b = b
or_else a b = a

abbrev pub list_of : Items → List Json
list_of nil = []
list_of (cons v vs) = v ∷ list_of vs

unfoldable mutual
  -- An element as `Array.prototype.join` prints it.
  pub element_text : Json → Text
  element_text null = []
  element_text (bool true) = text "true"
  element_text (bool false) = text "false"
  element_text (num n) = n
  element_text (str s) = s
  element_text (arr vs) = join (text ",") (element_texts vs)
  element_text (obj fs) = text "[object Object]"

  pub element_texts : Items → List Text
  element_texts nil = []
  element_texts (cons v vs) = element_text v ∷ element_texts vs
