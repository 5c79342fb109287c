-- ===== src/Deployments/Screens.antt =====
-- The two pages of the deployments: the list of frontend/app/(app)/deployments/page.tsx and the page of
-- one deployment of frontend/app/(app)/deployments/[id]/page.tsx. A step gives the requests that
-- the page sends. A button that is not rendered, or is disabled, does nothing.
use llmplane.Common.{
  ℕ, ◌-◌, Bool, true, false, not, ◌&&◌, List, [], ◌∷◌, ◌++◌, Option, none, some, Text, text, any,
  keep_if, length, ltb, is_empty, if◌then◌else◌,
}
use llmplane.Deployments.Model.{
  Deployment, DeploymentStatus, DeploymentAction, start, stop, restart, is_pending, is_stopped,
  is_running, deployment_of, Request, action_request, delete_request,
}

abbrev pub action_eq : DeploymentAction → DeploymentAction → Bool
action_eq start start = true
action_eq stop stop = true
action_eq restart restart = true
action_eq _ _ = false

-- The buttons of a card of the list.
unfoldable pub list_actions : DeploymentStatus → List DeploymentAction
list_actions s =
    if is_stopped s then start ∷ [] else (if is_running s then stop ∷ restart ∷ [] else [])

-- The buttons of a deployment's own page, by its `stopped` and `running`.
unfoldable pub detail_actions : DeploymentStatus → List DeploymentAction
detail_actions s =
    (if is_stopped s then start ∷ [] else []) ++ (if is_running s then stop ∷ restart ∷ [] else [])

-- `pendingDelete`, and `isPending` of the one mutation that all the cards share.
pub record ListPage (V : Type 0) : Type 0 where
  pub pending_delete : Option (Deployment V)
  pub is_busy : Bool

-- `settles`: the mutation's request has ended. `dialog_changes` is `onOpenChange`.
pub data ListEvent (V : Type 0) : Type 0 where
  acts : Deployment V → DeploymentAction → ListEvent V
  asks_delete : Deployment V → ListEvent V
  dialog_changes : Bool → ListEvent V
  confirms settles : ListEvent V

module _ {V : Type 0} where
  unfoldable pub list_step : ListPage V → ListEvent V → ListPage V × List Request
  unfolding list_actions action_request delete_request
  list_step p (acts d a) =
      if any (action_eq a) (list_actions d.status) && not p.is_busy
      then (record p { is_busy = true }, action_request d.id a ∷ [])
      else (p, [])
  list_step p (asks_delete d) = (record p { pending_delete = some d }, [])
  list_step p (dialog_changes is_open) =
      (if not is_open then record p { pending_delete = none } else p, [])
  list_step p confirms = elim p.pending_delete [
    | none ↦ (record p { pending_delete = none }, [])
    | some d ↦ (record p { pending_delete = none }, delete_request d.id none ∷ [])
  ]
  list_step p settles = (record p { is_busy = false }, [])

  unfoldable pub list_run : ListPage V → List (ListEvent V) → ListPage V × List Request
  unfolding list_step
  list_run p [] = (p, [])
  list_run p (e ∷ es) =
      let (q, sent) = list_step p e in let (r, later) = list_run q es in (r, sent ++ later)

-- `STALL_THRESHOLD_MS`.
abbrev pub stall_threshold_ms : ℕ
stall_threshold_ms = 300000

-- `confirmDelete`, and `isPending` of the page's mutation.
pub record DetailPage : Type 0 where
  pub confirm_delete : Bool
  pub is_busy : Bool

pub data DetailEvent : Type 0 where
  acts : DeploymentAction → DetailEvent
  asks_delete : DetailEvent
  dialog_changes : Bool → DetailEvent
  confirms settles : DetailEvent

module _ {V : Type 0} where
  -- The page of `id`, where `rows` is the data of the query; nothing is rendered for a row that is not
  -- there.
  unfoldable pub detail_step :
      Text → Option (List (Deployment V)) → DetailPage → DetailEvent → DetailPage × List Request
  unfolding deployment_of detail_actions action_request delete_request
  detail_step id rows p settles = (record p { is_busy = false }, [])
  detail_step id rows p (acts a) = elim (deployment_of id rows) [
    | none ↦ (p, [])
    | some d ↦
        if any (action_eq a) (detail_actions d.status) && not p.is_busy
        then (record p { is_busy = true }, action_request id a ∷ [])
        else (p, [])
  ]
  detail_step id rows p asks_delete = elim (deployment_of id rows) [
    | none ↦ (p, [])
    | some d ↦ (record p { confirm_delete = true }, [])
  ]
  detail_step id rows p (dialog_changes is_open) = elim (deployment_of id rows) [
    | none ↦ (p, [])
    | some d ↦ (record p { confirm_delete = is_open }, [])
  ]
  detail_step id rows p confirms = elim (deployment_of id rows) [
    | none ↦ (p, [])
    | some d ↦
        if p.confirm_delete
        then (record p { confirm_delete = false }, delete_request id none ∷ [])
        else (p, [])
  ]

  -- Each event comes with the rows that are rendered then.
  unfoldable pub detail_run :
      Text
      → DetailPage
      → List (Option (List (Deployment V)) × DetailEvent)
      → DetailPage × List Request
  unfolding detail_step
  detail_run id p [] = (p, [])
  detail_run id p ((rows, e) ∷ es) =
      let (q, sent) = detail_step id rows p e in
      let (r, later) = detail_run id q es in (r, sent ++ later)

  -- The filter of `StalledNotice`; `get_time` is `new Date(t).getTime()`, none for `NaN`.
  unfoldable pub is_stalled : (Text → Option ℕ) → ℕ → Deployment V → Bool
  is_stalled get_time now d =
      is_pending d.status
      && elim (get_time d.created_at) [ none ↦ false | some t ↦ ltb stall_threshold_ms (now - t) ]

  -- The title of `StalledNotice`, or nothing; `show` is a number's text.
  unfoldable pub stalled_notice :
      (Text → Option ℕ) → (ℕ → Text) → ℕ → List (Deployment V) → Option Text
  unfolding is_stalled
  stalled_notice get_time show now ds =
      let stalled = keep_if (is_stalled get_time now) ds in
      if is_empty stalled
      then none
      else some (
          show (length stalled)
          ++ (text " deployment"
              ++ ((if ltb 1 (length stalled) then text "s have" else text " has")
                  ++ text " been pending for over five minutes")))
