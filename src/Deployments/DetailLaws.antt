-- ===== src/Deployments/DetailLaws.antt =====
-- The page of one deployment sends what the list sends for it, and no action while one is under way.
use llmplane.Common.{
  ℕ, ◌+◌, ◌≤◌, ◌≡◌, refl, ap, inl, inr, Bool, true, false, not, ◌&&◌, List, [], ◌∷◌, ◌++◌, Option,
  none, some, Text, text_eq, text_eq_iff, any, All, if◌then◌else◌, Bool-cases, Option-cases, arith,
}
use llmplane.Deployments.Model.{
  Deployment, DeploymentStatus, pending, downloading, running, stopped, error, deleting, Request,
  post, delete, action_request, delete_request, deployment_of, find_deployment,
}
use llmplane.Deployments.Screens.{
  ListPage, ListEvent, list_step, list_run, list_actions, action_eq, DetailPage, DetailEvent,
  detail_step, detail_run, detail_actions,
}

same_actions : (s : DeploymentStatus) → detail_actions s ≡ list_actions s
unfolding detail_actions list_actions
same_actions pending = refl
same_actions downloading = refl
same_actions running = refl
same_actions stopped = refl
same_actions error = refl
same_actions deleting = refl

-- `ConfirmDialog` has no trigger, so that it only asks to be closed.
abbrev pub IsClosing : DetailEvent → Type 0
IsClosing (DetailEvent.dialog_changes b) = b ≡ false
IsClosing _ = Unit

module _ {V : Type 0} where
  find_deployment-id :
      (id : Text) (ds : List (Deployment V)) (d : Deployment V)
      → find_deployment id ds ≡ some d
      → d.id ≡ id
  unfolding find_deployment
  find_deployment-id id [] d h = cc
  find_deployment-id id (c ∷ ds) d h = elim (Bool-cases (text_eq c.id id)) [
    | inl e ↦ ground (arith, h, e, text_eq_iff c.id id)
    | inr e ↦ find_deployment-id id ds d (ground (arith, h, e))
  ]

  row_id :
      (id : Text) (rows : Option (List (Deployment V))) (d : Deployment V)
      → deployment_of id rows ≡ some d
      → d.id ≡ id
  unfolding deployment_of
  row_id id none d h = cc
  row_id id (some ds) d h = find_deployment-id id ds d h

  -- The same event on the card of the deployment, in the list.
  abbrev pub on_card : Deployment V → DetailEvent → List (ListEvent V)
  on_card d (DetailEvent.acts a) = ListEvent.acts d a ∷ []
  on_card d DetailEvent.asks_delete = ListEvent.asks_delete d ∷ []
  on_card d (DetailEvent.dialog_changes b) = ListEvent.dialog_changes b ∷ []
  on_card d DetailEvent.confirms = ListEvent.confirms ∷ []
  on_card d DetailEvent.settles = ListEvent.settles ∷ []

  -- For a row that is not there, only the request under way can end.
  abbrev pub without_card : DetailEvent → List (ListEvent V)
  without_card DetailEvent.settles = ListEvent.settles ∷ []
  without_card _ = []

  abbrev pub on_list : Text → List (Option (List (Deployment V)) × DetailEvent) → List (ListEvent V)
  on_list id [] = []
  on_list id ((rows, e) ∷ es) =
      elim (deployment_of id rows) [ none ↦ without_card e | some d ↦ on_card d e ] ++ on_list id es

  -- The dialogs are open together, for the deployment of the page.
  abbrev Matches : Text → Option (Deployment V) → Bool → Type 0
  Matches id none b = b ≡ false
  Matches id (some d) b = (b ≡ true) × (d.id ≡ id)

  module _ (id : Text) (es : List (Option (List (Deployment V)) × DetailEvent)) where
    abbrev SendSame : Option (Deployment V) → Bool → Bool → Type 0
    SendSame o c b =
        (detail_run id (record { confirm_delete = c; is_busy = b }) es).1
        ≡ (list_run (record { pending_delete = o; is_busy = b }) (on_list id es)).1

    same_gone :
        (rows : Option (List (Deployment V))) (e : DetailEvent) (o : Option (Deployment V))
        (c b : Bool)
        → deployment_of id rows ≡ none
        → ((busy : Bool) → SendSame o c busy)
        → (detail_run id (record { confirm_delete = c; is_busy = b }) ((rows, e) ∷ es)).1
          ≡ (list_run
              (record { pending_delete = o; is_busy = b })
              (without_card e ++ on_list id es)).1
    unfolding detail_run list_run
    same_gone rows DetailEvent.settles o c b k ih = ih false
    same_gone rows (DetailEvent.acts a) o c b k ih = rw (k, detail_step) (ih b)
    same_gone rows DetailEvent.asks_delete o c b k ih = rw (k, detail_step) (ih b)
    same_gone rows (DetailEvent.dialog_changes x) o c b k ih = rw (k, detail_step) (ih b)
    same_gone rows DetailEvent.confirms o c b k ih = rw (k, detail_step) (ih b)

    same_there :
        (rows : Option (List (Deployment V))) (e : DetailEvent) (o : Option (Deployment V))
        (c b : Bool) (d : Deployment V)
        → deployment_of id rows ≡ some d
        → d.id ≡ id
        → IsClosing e
        → Matches id o c
        → ((p : Option (Deployment V)) (shown busy : Bool)
            → Matches id p shown
            → SendSame p shown busy)
        → (detail_run id (record { confirm_delete = c; is_busy = b }) ((rows, e) ∷ es)).1
          ≡ (list_run (record { pending_delete = o; is_busy = b }) (on_card d e ++ on_list id es)).1
    unfolding detail_run list_run
    same_there rows DetailEvent.settles o c b d k i q m ih = ih o c false m
    same_there rows (DetailEvent.acts a) o c b d k i q m ih =
        rw (k, detail_step, same_actions d.status)
          (choose (any (action_eq a) (list_actions d.status) && not b) (ih o c true m) (ih o c b m))
      where
        shown_by : Bool → DetailPage × List Request
        shown_by goes =
            if goes
            then (record { confirm_delete = c; is_busy = true }, action_request id a ∷ [])
            else (record { confirm_delete = c; is_busy = b }, [])

        sent_by : Bool → ListPage V × List Request
        sent_by goes =
            if goes
            then (record { pending_delete = o; is_busy = true }, action_request d.id a ∷ [])
            else (record { pending_delete = o; is_busy = b }, [])

        choose :
            (goes : Bool)
            → SendSame o c true
            → SendSame o c b
            → (shown_by goes).1 ++ (detail_run id (shown_by goes).0 es).1
              ≡ (sent_by goes).1 ++ (list_run (sent_by goes).0 (on_list id es)).1
        choose true h n = rw i (ap (λ sent. action_request id a ∷ sent) h)
        choose false h n = n
    same_there rows DetailEvent.asks_delete o c b d k i q m ih =
        rw (k, detail_step) (ih (some d) true b (refl, i))
    same_there rows (DetailEvent.dialog_changes x) o c b d k i q m ih =
        rw (k, detail_step, q) (ih none false b refl)
    same_there rows DetailEvent.confirms none c b d k i q m ih =
        rw (k, detail_step, m) (ih none false b refl)
    same_there rows DetailEvent.confirms (some f) c b d k i q m ih =
        rw (k, detail_step, m.0, m.1)
          (ap (λ sent. delete_request id none ∷ sent) (ih none false b refl))

  same_run :
      (id : Text) (o : Option (Deployment V)) (open_now busy : Bool)
      (es : List (Option (List (Deployment V)) × DetailEvent))
      → All (λ e. IsClosing e.1) es
      → Matches id o open_now
      → (detail_run id (record { confirm_delete = open_now; is_busy = busy }) es).1
        ≡ (list_run (record { pending_delete = o; is_busy = busy }) (on_list id es)).1
  unfolding detail_run list_run
  same_run id o c b [] h m = refl
  same_run id o c b ((rows, e) ∷ es) (q, h) m = elim (Option-cases (deployment_of id rows)) [
    | inl k ↦ rw k (same_gone id es rows e o c b k (λ busy. same_run id o c busy es h m))
    | inr (d, k) ↦ rw k (
        same_there id es rows e o c b d k (row_id id rows d k) q m
          (λ p shown busy n. same_run id p shown busy es h n))
  ]

  -- The page of one deployment sends what the list sends when the same is done on the deployment's card:
  -- whatever rows come and go meanwhile, provided that the dialog only ever asks to be closed.
  pub detail_run-list_run :
      (id : Text) (busy : Bool) (es : List (Option (List (Deployment V)) × DetailEvent))
      → All (λ e. IsClosing e.1) es
      → (detail_run id (record { confirm_delete = false; is_busy = busy }) es).1
        ≡ (list_run (record { pending_delete = none; is_busy = busy }) (on_list id es)).1
  detail_run-list_run id busy es h = same_run id none false busy es h refl

abbrev pub posts : List Request → ℕ
posts [] = 0
posts (r ∷ rs) = elim r.method [ post ↦ 1 | delete ↦ 0 ] + posts rs

abbrev pub endings : {V : Type 0} → List (ListEvent V) → ℕ
endings [] = 0
endings (ListEvent.settles ∷ es) = 1 + endings es
endings (ListEvent.acts d a ∷ es) = endings es
endings (ListEvent.asks_delete d ∷ es) = endings es
endings (ListEvent.dialog_changes b ∷ es) = endings es
endings (ListEvent.confirms ∷ es) = endings es

module _ {V : Type 0} where
  -- The list page sends at most one more action than requests have ended, for all its cards together: none
  -- is sent while another is under way.
  posts-list_run :
      (p : ListPage V) (es : List (ListEvent V))
      → posts (list_run p es).1 ≤ endings es + (if p.is_busy then 0 else 1)
  unfolding list_run list_step action_request delete_request
  posts-list_run p [] = omega arith
  posts-list_run p (ListEvent.settles ∷ es) =
      ground (arith, posts-list_run (record p { is_busy = false }) es)
  posts-list_run p (ListEvent.acts d a ∷ es) =
      ground (arith, posts-list_run (record p { is_busy = true }) es, posts-list_run p es)
  posts-list_run p (ListEvent.asks_delete d ∷ es) =
      ground (arith, posts-list_run (record p { pending_delete = some d }) es)
  posts-list_run p (ListEvent.dialog_changes true ∷ es) = ground (arith, posts-list_run p es)
  posts-list_run p (ListEvent.dialog_changes false ∷ es) =
      ground (arith, posts-list_run (record p { pending_delete = none }) es)
  posts-list_run p (ListEvent.confirms ∷ es) = elim (Option-cases p.pending_delete) [
    | inl e ↦ rw e (posts-list_run (record p { pending_delete = none }) es)
    | inr (d, e) ↦ rw e (omega (arith, posts-list_run (record p { pending_delete = none }) es))
  ]
