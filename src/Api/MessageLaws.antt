-- ===== src/Api/MessageLaws.antt =====
-- What `messageFromBody` shows the user.
use llmplane.Common.{
  ℕ, ◌≡◌, refl, ◌≢◌, inl, inr, List, [], ◌∷◌, ◌++◌, Option, none, some, arith, Text, text, trim,
  join, is_empty, if◌then◌else◌, All, Option-cases,
}
use llmplane.Api.Json.{Json, null, bool, num, str, arr, obj, Items, nil, cons, get_field}
use llmplane.Api.Message.{
  generic_message, location, msg_text, item_message, item_messages, or_generic, detail_message,
  detail_of, message_from_body,
}

or_generic-ne : (s generic : Text) → generic ≢ [] → or_generic s generic ≢ []
unfolding or_generic
or_generic-ne [] generic h = h
or_generic-ne (c ∷ s) generic h = ground arith

append-ne : (s t : Text) → s ≢ [] → s ++ t ≢ []
append-ne [] t h = absurd (h refl)
append-ne (c ∷ s) t h = ground arith

generic_message-ne : (status : ℕ) (status_text : Text) → generic_message status status_text ≢ []
unfolding generic_message
generic_message-ne status status_text = ground arith

item_message-ne : (v : Json) (s : Text) → item_message v ≡ some s → s ≢ []
unfolding item_message
item_message-ne (obj fs) s h =
    shown (location (get_field (text "loc") fs)) (msg_text (get_field (text "msg") fs)) h
  where
    shown :
        (loc msg : Text)
        → (if is_empty msg
            then none
            else if is_empty loc
            then some msg
            else some (loc ++ text ": " ++ msg))
          ≡ some s
        → s ≢ []
    shown loc [] e = absurd (cc)
    shown [] (c ∷ msg) e = ground arith
    shown (d ∷ loc) (c ∷ msg) e = ground arith
item_message-ne _ s h = absurd (cc)

item_messages-ne : (vs : Items) → All (λ s. s ≢ []) (item_messages vs)
unfolding item_messages
item_messages-ne nil = tt
item_messages-ne (cons v vs) = elim (Option-cases (item_message v)) [
  | inl e ↦ rw e (item_messages-ne vs)
  | inr (s, e) ↦ rw e (item_message-ne v s e, item_messages-ne vs)
]

join-ne : (sep s : Text) (rest : List Text) → s ≢ [] → join sep (s ∷ rest) ≢ []
unfolding join
join-ne sep s [] h = h
join-ne sep s (t ∷ rest) h = append-ne (s ++ sep) _ (append-ne s sep h)

joined-ne :
    (generic : Text) (parts : List Text)
    → generic ≢ []
    → All (λ s. s ≢ []) parts
    → (if is_empty parts then generic else join (text "; ") parts) ≢ []
joined-ne generic [] h k = h
joined-ne generic (s ∷ rest) h (q, k) = join-ne (text "; ") s rest q

detail_message-ne :
    (generic : Text) (detail : Option Json) → generic ≢ [] → detail_message generic detail ≢ []
unfolding detail_message
detail_message-ne generic (some (str s)) h = or_generic-ne (trim s) generic h
detail_message-ne generic (some (arr vs)) h =
    joined-ne generic (item_messages vs) h (item_messages-ne vs)
detail_message-ne generic (some null) h = h
detail_message-ne generic (some (bool b)) h = h
detail_message-ne generic (some (num n)) h = h
detail_message-ne generic (some (obj fs)) h = h
detail_message-ne generic none h = h

-- Whatever JSON the backend answers with, and whatever the status, the message that the user sees is
-- not empty.
pub message_from_body-ne :
    (status : ℕ) (status_text : Text) (body : Json) → message_from_body status status_text body ≢ []
unfolding message_from_body
message_from_body-ne status st (str s) =
    or_generic-ne (trim s) (generic_message status st) (generic_message-ne status st)
message_from_body-ne status st (obj fs) =
    detail_message-ne (generic_message status st) (detail_of fs) (generic_message-ne status st)
message_from_body-ne status st null = generic_message-ne status st
message_from_body-ne status st (bool b) = generic_message-ne status st
message_from_body-ne status st (num n) = generic_message-ne status st
message_from_body-ne status st (arr vs) = generic_message-ne status st
