-- ===== src/Api/Message.antt =====
-- `messageFromBody` of frontend/lib/api.ts: a readable message out of an error response.
use llmplane.Common.{
  ℕ, zero, suc, ◌+◌, ◌/◌, ◌%◌, Bool, false, List, [], ◌∷◌, ◌++◌, Option, none, some, Text, text,
  text_eq, trim, join, is_empty, if◌then◌else◌, ltb,
}
use llmplane.Api.Json.{
  Json, str, arr, obj, Items, nil, cons, Fields, get_field, or_else, element_text, element_texts,
}

-- `${n}` of a natural number, by at most the given number of digits.
unfoldable pub digits_from : ℕ → ℕ → Text
digits_from zero n = []
digits_from (suc fuel) n =
    let front = digits_from fuel (n / 10) in
    if ltb n 10 then (b'0' + n) ∷ [] else front ++ (b'0' + n % 10) ∷ []

unfoldable pub decimal : ℕ → Text
unfolding digits_from
decimal n = digits_from (suc n) n

unfoldable pub generic_message : ℕ → Text → Text
unfolding decimal
generic_message status status_text =
    text "API error: "
    ++ decimal status
    ++ (if is_empty status_text then [] else text " " ++ status_text)

abbrev is_body : Json → Bool
is_body (str s) = text_eq s (text "body")
is_body v = false

-- `e.loc.filter((p) => p !== "body")`.
unfoldable pub without_body : Items → Items
without_body nil = nil
without_body (cons v vs) = let rest = without_body vs in if is_body v then rest else cons v rest

-- `Array.isArray(e.loc) ? ….join(".") : ""`.
unfoldable pub location : Option Json → Text
unfolding without_body element_text
location (some (arr vs)) = join (text ".") (element_texts (without_body vs))
location other = []

-- `typeof e.msg === "string" ? e.msg : null`, where `null` and "" both end the item.
unfoldable pub msg_text : Option Json → Text
msg_text (some (str s)) = s
msg_text other = []

-- One item of a validation array; `none` is what `filter(Boolean)` drops.
unfoldable pub item_message : Json → Option Text
unfolding location msg_text get_field
item_message (obj fs) =
    let loc = location (get_field (text "loc") fs) in
    let msg = msg_text (get_field (text "msg") fs) in
    if is_empty msg then none else if is_empty loc then some msg else some (loc ++ text ": " ++ msg)
item_message other = none

abbrev keep_some : Option Text → List Text → List Text
keep_some none rest = rest
keep_some (some s) rest = s ∷ rest

unfoldable pub item_messages : Items → List Text
item_messages nil = []
item_messages (cons v vs) = keep_some (item_message v) (item_messages vs)

unfoldable pub or_generic : Text → Text → Text
or_generic s generic = if is_empty s then generic else s

unfoldable pub detail_message : Text → Option Json → Text
unfolding item_messages or_generic
detail_message generic (some (str s)) = or_generic (trim s) generic
detail_message generic (some (arr vs)) =
    if is_empty (item_messages vs) then generic else join (text "; ") (item_messages vs)
detail_message generic other = generic

-- `rec.detail ?? rec.title ?? rec.message`.
unfoldable pub detail_of : Fields → Option Json
unfolding get_field or_else
detail_of fs =
    or_else (or_else (get_field (text "detail") fs) (get_field (text "title") fs))
      (get_field (text "message") fs)

unfoldable pub message_from_body : ℕ → Text → Json → Text
unfolding generic_message detail_message detail_of or_generic
message_from_body status status_text (str s) =
    or_generic (trim s) (generic_message status status_text)
message_from_body status status_text (obj fs) =
    detail_message (generic_message status status_text) (detail_of fs)
message_from_body status status_text other = generic_message status status_text
