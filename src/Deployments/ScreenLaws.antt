-- ===== src/Deployments/ScreenLaws.antt =====
-- What the list of deployments sends, and that the page of one deployment sends the same.
use llmplane.Common.{
  ◌≡◌, refl, inl, inr, ◌⊎◌, Bool, true, false, not, ◌&&◌, List, [], ◌∷◌, ◌++◌, Option, none, some,
  any, Has, Has-append_right, if◌then◌else◌,
}
use mathlib.Core.Path.{subst, sym}
use llmplane.Deployments.Model.{
  Deployment, DeploymentAction, Request, action_request, delete_request,
}
use llmplane.Deployments.Screens.{ListPage, ListEvent, list_run, list_actions, action_eq}

module _ {V : Type 0} where
  -- Of the next events, the first that is about the dialog is the confirmation.
  abbrev pub NextConfirms : List (ListEvent V) → Type 0
  NextConfirms [] = ⊥
  NextConfirms (ListEvent.confirms ∷ es) = Unit
  NextConfirms (ListEvent.acts d a ∷ es) = NextConfirms es
  NextConfirms (ListEvent.settles ∷ es) = NextConfirms es
  NextConfirms (ListEvent.dialog_changes true ∷ es) = NextConfirms es
  NextConfirms (ListEvent.dialog_changes false ∷ es) = ⊥
  NextConfirms (ListEvent.asks_delete d ∷ es) = ⊥

  -- The request deletes a deployment whose delete button was pressed and then confirmed.
  abbrev pub Confirmed : Request → List (ListEvent V) → Type 0
  Confirmed r [] = ⊥
  Confirmed r (ListEvent.asks_delete d ∷ es) =
      ((r ≡ delete_request d.id none) × NextConfirms es) ⊎ Confirmed r es
  Confirmed r (ListEvent.acts d a ∷ es) = Confirmed r es
  Confirmed r (ListEvent.dialog_changes b ∷ es) = Confirmed r es
  Confirmed r (ListEvent.confirms ∷ es) = Confirmed r es
  Confirmed r (ListEvent.settles ∷ es) = Confirmed r es

  -- The request is an action that the card of the deployment offered.
  abbrev pub Offered : Request → List (ListEvent V) → Type 0
  Offered r [] = ⊥
  Offered r (ListEvent.acts d a ∷ es) =
      ((r ≡ action_request d.id a) × (any (action_eq a) (list_actions d.status) ≡ true))
      ⊎ Offered r es
  Offered r (ListEvent.asks_delete d ∷ es) = Offered r es
  Offered r (ListEvent.dialog_changes b ∷ es) = Offered r es
  Offered r (ListEvent.confirms ∷ es) = Offered r es
  Offered r (ListEvent.settles ∷ es) = Offered r es

  -- The dialog is open for a deployment, which the request deletes once confirmed.
  abbrev Armed : Option (Deployment V) → Request → List (ListEvent V) → Type 0
  Armed none r es = ⊥
  Armed (some d) r es = (r ≡ delete_request d.id none) × NextConfirms es

  abbrev Justified : Option (Deployment V) → Request → List (ListEvent V) → Type 0
  Justified o r es = Offered r es ⊎ (Armed o r es ⊎ Confirmed r es)

  -- With the dialog closed, what is justified later is justified by the later events alone.
  unarmed :
      (o : Option (Deployment V)) (r : Request) (es fs : List (ListEvent V))
      → (Offered r es → Offered r fs)
      → (Confirmed r es → Confirmed r fs)
      → Justified none r es
      → Justified o r fs
  unarmed o r es fs f g (inl k) = inl (f k)
  unarmed o r es fs f g (inr (inl k)) = elim k [ ]
  unarmed o r es fs f g (inr (inr k)) = inr (inr (g k))

  -- An event that leaves the dialog as it is.
  armed :
      (o : Option (Deployment V)) (r : Request) (es fs : List (ListEvent V))
      → (Offered r es → Offered r fs)
      → (Confirmed r es → Confirmed r fs)
      → (NextConfirms es → NextConfirms fs)
      → Justified o r es
      → Justified o r fs
  armed o r es fs f g n (inl k) = inl (f k)
  armed none r es fs f g n (inr (inl k)) = elim k [ ]
  armed (some d) r es fs f g n (inr (inl (e, k))) = inr (inl (e, n k))
  armed o r es fs f g n (inr (inr k)) = inr (inr (g k))

  -- What a press of an action's button does, where `goes` is whether the button is there and enabled.
  abbrev outcome :
      Option (Deployment V)
      → Bool
      → Deployment V
      → DeploymentAction
      → Bool
      → ListPage V × List Request
  outcome o b d a goes =
      if goes
      then (record { pending_delete = o; is_busy = true }, action_request d.id a ∷ [])
      else (record { pending_delete = o; is_busy = b }, [])

  acted :
      (r : Request) (o : Option (Deployment V)) (b : Bool) (d : Deployment V) (a : DeploymentAction)
      (es : List (ListEvent V))
      → ((c : Bool)
          → Has r (list_run (record { pending_delete = o; is_busy = c }) es).1
          → Justified o r es)
      → Has r (list_run (record { pending_delete = o; is_busy = b }) (ListEvent.acts d a ∷ es)).1
      → Justified o r (ListEvent.acts d a ∷ es)
  unfolding list_run
  acted r o b d a es ih = choose (any (action_eq a) (list_actions d.status)) b refl
    where
      later :
          (c : Bool)
          → Has r (list_run (record { pending_delete = o; is_busy = c }) es).1
          → Justified o r (ListEvent.acts d a ∷ es)
      later c h = armed o r es (ListEvent.acts d a ∷ es) (λ k. inr k) (λ k. k) (λ k. k) (ih c h)

      choose :
          (offered busy : Bool)
          → any (action_eq a) (list_actions d.status) ≡ offered
          → Has r (
              (outcome o busy d a (offered && not busy)).1
              ++ (list_run (outcome o busy d a (offered && not busy)).0 es).1)
          → Justified o r (ListEvent.acts d a ∷ es)
      choose true false e (inl k) = inl (inl (k, e))
      choose true false e (inr h) = later true h
      choose true true e h = later true h
      choose false c e h = later c h

  list_run-Justified :
      (r : Request) (o : Option (Deployment V)) (b : Bool) (es : List (ListEvent V))
      → Has r (list_run (record { pending_delete = o; is_busy = b }) es).1
      → Justified o r es
  unfolding list_run
  list_run-Justified r o b [] h = elim h [ ]
  list_run-Justified r o b (ListEvent.acts d a ∷ es) h =
      acted r o b d a es (λ c. list_run-Justified r o c es) h
  list_run-Justified r o b (ListEvent.asks_delete d ∷ es) h =
      elim (list_run-Justified r (some d) b es h) [
        | inl k ↦ inl k
        | inr (inl k) ↦ inr (inr (inl k))
        | inr (inr k) ↦ inr (inr (inr k))
      ]
  list_run-Justified r o b (ListEvent.dialog_changes true ∷ es) h =
      armed o r es (ListEvent.dialog_changes true ∷ es) (λ k. k) (λ k. k) (λ k. k)
        (list_run-Justified r o b es h)
  list_run-Justified r o b (ListEvent.dialog_changes false ∷ es) h =
      unarmed o r es (ListEvent.dialog_changes false ∷ es) (λ k. k) (λ k. k)
        (list_run-Justified r none b es h)
  list_run-Justified r none b (ListEvent.confirms ∷ es) h =
      unarmed none r es (ListEvent.confirms ∷ es) (λ k. k) (λ k. k)
        (list_run-Justified r none b es h)
  list_run-Justified r (some d) b (ListEvent.confirms ∷ es) (inl e) = inr (inl (e, tt))
  list_run-Justified r (some d) b (ListEvent.confirms ∷ es) (inr h) =
      unarmed (some d) r es (ListEvent.confirms ∷ es) (λ k. k) (λ k. k)
        (list_run-Justified r none b es h)
  list_run-Justified r o b (ListEvent.settles ∷ es) h =
      armed o r es (ListEvent.settles ∷ es) (λ k. k) (λ k. k) (λ k. k)
        (list_run-Justified r o false es h)

  NextConfirms-Has :
      (d : Deployment V) (b : Bool) (es : List (ListEvent V))
      → NextConfirms es
      → Has
          (delete_request d.id none)
          (list_run (record { pending_delete = some d; is_busy = b }) es).1
  unfolding list_run
  NextConfirms-Has d b [] h = elim h [ ]
  NextConfirms-Has d b (ListEvent.confirms ∷ es) h = inl refl
  NextConfirms-Has d b (ListEvent.acts c a ∷ es) h =
      choose (any (action_eq a) (list_actions c.status) && not b) (NextConfirms-Has d true es h)
        (NextConfirms-Has d b es h)
    where
      choose :
          (goes : Bool)
          → Has
              (delete_request d.id none)
              (list_run (record { pending_delete = some d; is_busy = true }) es).1
          → Has
              (delete_request d.id none)
              (list_run (record { pending_delete = some d; is_busy = b }) es).1
          → Has
              (delete_request d.id none)
              ((outcome (some d) b c a goes).1 ++ (list_run (outcome (some d) b c a goes).0 es).1)
      choose true h k = inr h
      choose false h k = k
  NextConfirms-Has d b (ListEvent.settles ∷ es) h = NextConfirms-Has d false es h
  NextConfirms-Has d b (ListEvent.dialog_changes true ∷ es) h = NextConfirms-Has d b es h
  NextConfirms-Has d b (ListEvent.dialog_changes false ∷ es) h = elim h [ ]
  NextConfirms-Has d b (ListEvent.asks_delete c ∷ es) h = elim h [ ]

  Confirmed-Has :
      (r : Request) (o : Option (Deployment V)) (b : Bool) (es : List (ListEvent V))
      → Confirmed r es
      → Has r (list_run (record { pending_delete = o; is_busy = b }) es).1
  unfolding list_run
  Confirmed-Has r o b [] h = elim h [ ]
  Confirmed-Has r o b (ListEvent.asks_delete d ∷ es) (inl (e, h)) =
      subst (λ q. Has q (list_run (record { pending_delete = some d; is_busy = b }) es).1) (sym e)
        (NextConfirms-Has d b es h)
  Confirmed-Has r o b (ListEvent.asks_delete d ∷ es) (inr h) = Confirmed-Has r (some d) b es h
  Confirmed-Has r o b (ListEvent.acts c a ∷ es) h =
      let sent = outcome o b c a (any (action_eq a) (list_actions c.status) && not b) in
      Has-append_right r sent.1 (list_run sent.0 es).1
        (Confirmed-Has r sent.0.pending_delete sent.0.is_busy es h)
  Confirmed-Has r o b (ListEvent.settles ∷ es) h = Confirmed-Has r o false es h
  Confirmed-Has r o b (ListEvent.dialog_changes true ∷ es) h = Confirmed-Has r o b es h
  Confirmed-Has r o b (ListEvent.dialog_changes false ∷ es) h = Confirmed-Has r none b es h
  Confirmed-Has r none b (ListEvent.confirms ∷ es) h = Confirmed-Has r none b es h
  Confirmed-Has r (some d) b (ListEvent.confirms ∷ es) h = inr (Confirmed-Has r none b es h)

  -- From a closed dialog, the list page sends a request only for an action that a card offered, or to
  -- delete a deployment whose button was pressed and then confirmed with nothing else done to the dialog
  -- between; and each deletion that is confirmed so is sent.
  pub list_run-Confirmed :
      (r : Request) (b : Bool) (es : List (ListEvent V))
      → (Has r (list_run (record { pending_delete = none; is_busy = b }) es).1
          → Offered r es ⊎ Confirmed r es)
        × (Confirmed r es → Has r (list_run (record { pending_delete = none; is_busy = b }) es).1)
  list_run-Confirmed r b es =
      (λ h. closed (list_run-Justified r none b es h), Confirmed-Has r none b es)
    where
      closed : Justified none r es → Offered r es ⊎ Confirmed r es
      closed (inl k) = inl k
      closed (inr (inl k)) = elim k [ ]
      closed (inr (inr k)) = inr k
