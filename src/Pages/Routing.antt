-- ===== src/Pages/Routing.antt =====
-- The handlers of frontend/app/(app)/routing/page.tsx, over the policies of
-- frontend/hooks/usePolicies.ts. An answer that carries no message stands for a thrown value that is no
-- `Error`.
use llmplane.Common.{
  ℕ, ◌+◌, ◌≡◌, Bool, true, false, not, ◌&&◌, List, [], ◌∷◌, ◌++◌, map, Option, none, some, Text,
  text, text_eq, length, is_empty, if◌then◌else◌, ◌==◌, arith,
}

pub data Strategy : Type 0 where
  cheapest fastest fallback round_robin weighted cost_threshold latency_threshold : Strategy

pub record Policy : Type 0 where
  pub id : Text
  pub name : Text
  pub strategy : Text
  pub model_allowlist : List Text
  pub is_active : Bool

unfoldable pub strategy_text : Strategy → Text
strategy_text cheapest = text "cheapest"
strategy_text fastest = text "fastest"
strategy_text fallback = text "fallback"
strategy_text round_robin = text "round_robin"
strategy_text weighted = text "weighted"
strategy_text cost_threshold = text "cost_threshold"
strategy_text latency_threshold = text "latency_threshold"

-- `strategy.replace(/_/g, " ")`.
unfoldable pub strategy_label : Text → Text
strategy_label s = map (λ c. if c == b'_' then b' ' else c) s

unfoldable pub models_allowed : (ℕ → Text) → Policy → Text
models_allowed show p =
    if is_empty p.model_allowlist
    then text "all allowed"
    else show (length p.model_allowlist) ++ text " allowed"

-- The answer to an activation: `gateway_config_status` and `gateway_detail`, or an error's message.
pub data Answer (A : Type 0) : Type 0 where
  fulfilled : A → Answer A
  rejected : Option Text → Answer A

pub record Activated : Type 0 where
  pub gateway_config_status : Text
  pub gateway_detail : Option Text

pub data Toast : Type 0 where
  success : Text → Toast
  warning error : Text → Text → Toast

abbrev message_or : Option Text → Text
message_or none = text "Unknown error."
message_or (some m) = m

-- What `handleActivate` tells once the mutation has settled.
unfoldable pub activation_toast : Answer Activated → Toast
unfolding text_eq
activation_toast (fulfilled r) =
    if text_eq r.gateway_config_status (text "applied")
    then success (text "Policy activated")
    else warning (text "Policy saved, gateway reload deferred") (elim r.gateway_detail [
      | none ↦ text "It takes effect on the gateway's next restart."
      | some detail ↦ detail
    ])
activation_toast (rejected m) = error (text "Could not activate policy") (message_or m)

unfoldable pub deletion_toast : Answer Unit → Toast
deletion_toast (fulfilled r) = success (text "Policy deleted")
deletion_toast (rejected m) = error (text "Could not delete policy") (message_or m)

-- The two mutations' `isPending`.
pub record RoutingPage : Type 0 where
  pub activating : Bool
  pub deleting : Bool

pub data Event : Type 0 where
  activates deletes : Policy → Event
  activation_ends : Answer Activated → Event
  deletion_ends : Answer Unit → Event

pub data Request : Type 0 where
  activate delete : Text → Request

-- One event, the requests sent and what is told. An answer comes only while its request is under way.
unfoldable pub step : RoutingPage → Event → RoutingPage × List Request × List Toast
unfolding activation_toast deletion_toast
step p (activates q) =
    if not q.is_active && not p.activating
    then (record p { activating = true }, activate q.id ∷ [], [])
    else (p, [], [])
step p (deletes q) =
    if p.deleting then (p, [], []) else (record p { deleting = true }, delete q.id ∷ [], [])
step p (activation_ends a) =
    if p.activating
    then (record p { activating = false }, [], activation_toast a ∷ [])
    else (p, [], [])
step p (deletion_ends a) =
    if p.deleting then (record p { deleting = false }, [], deletion_toast a ∷ []) else (p, [], [])

unfoldable pub run : RoutingPage → List Event → RoutingPage × List Request × List Toast
unfolding step
run p [] = (p, [], [])
run p (e ∷ es) =
    let (q, sent, told) = step p e in
    let (r, sent_later, told_later) = run q es in (r, sent ++ sent_later, told ++ told_later)

abbrev under_way : RoutingPage → ℕ
under_way p = (if p.activating then 1 else 0) + (if p.deleting then 1 else 0)

-- Each request is told of once: the toasts and the requests still under way are as many as the requests
-- sent and those that were under way before.
run-toasts :
    (p : RoutingPage) (es : List Event)
    → length (run p es).2 + under_way (run p es).0 ≡ length (run p es).1 + under_way p
unfolding run step
run-toasts p [] = omega arith
run-toasts p (activates q ∷ es) =
    ground (arith, run-toasts p es, run-toasts (record p { activating = true }) es)
run-toasts p (deletes q ∷ es) =
    ground (arith, run-toasts p es, run-toasts (record p { deleting = true }) es)
run-toasts p (activation_ends a ∷ es) =
    ground (arith, run-toasts p es, run-toasts (record p { activating = false }) es)
run-toasts p (deletion_ends a ∷ es) =
    ground (arith, run-toasts p es, run-toasts (record p { deleting = false }) es)
