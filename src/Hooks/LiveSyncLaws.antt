-- ===== src/Hooks/LiveSyncLaws.antt =====
-- A page that keeps the deployments in sync shows what the server has after each event.
use llmplane.Common.{
  ℕ, ◌≡◌, sym, ap, ◌∙◌, inl, inr, Bool, true, false, Bool-cases, Option-cases, List, [], ◌∷◌, none,
  some, Text, ◌==◌, ==_iff, arith,
}
use llmplane.Live.Socket.{Event, initial, run, on_message}
use llmplane.Live.Refinement.{wanted, count, run_refines}
use llmplane.Hooks.Keys.{Key, Reading}
use llmplane.Hooks.Queries.{Query, key, enabled}
use llmplane.Hooks.MutationLaws.{StartsWith}
use llmplane.Hooks.Cache.{QueryCache, World, answer, store, visit}
use llmplane.Hooks.LiveSync.{deployments_topic, deployments_key, call_each, receive}

module _ {Data : Type 0} (C : QueryCache Data) (is_sync : ℕ → Bool) where
  -- Invalidation makes nothing fresh, and leaves nothing fresh under its prefix.
  get-invalidate-none :
      (s : C.State) (p k : Key) → C.get s k ≡ none → C.get (C.invalidate s p) k ≡ none
  get-invalidate-none s p k h = elim (Option-cases (C.get (C.invalidate s p) k)) [
    | inl e ↦ e
    | inr (d, e) ↦ absurd (apart (sym h ∙ (C.get-invalidate s p k d e).0))
  ]
    where
      apart : {d : Data} → none ≡ some d → ⊥
      apart e = cc

  get-invalidate_prefix :
      (s : C.State) (p k : Key) → StartsWith p k → C.get (C.invalidate s p) k ≡ none
  get-invalidate_prefix s p k h = elim (Option-cases (C.get (C.invalidate s p) k)) [
    | inl e ↦ e
    | inr (d, e) ↦ absurd ((C.get-invalidate s p k d e).1 h)
  ]

  get-call_each-none :
      (cs : List ℕ) (s : C.State) (k : Key)
      → C.get s k ≡ none
      → C.get (call_each C is_sync cs s) k ≡ none
  unfolding call_each
  get-call_each-none [] s k h = h
  get-call_each-none (c ∷ cs) s k h = elim (Bool-cases (is_sync c)) [
    | inl e ↦ rw e (
        get-call_each-none cs (C.invalidate s deployments_key) k
          (get-invalidate-none s deployments_key k h))
    | inr e ↦ rw e (get-call_each-none cs s k h)
  ]

  get-call_each :
      (c : ℕ) (cs : List ℕ) (s : C.State) (k : Key)
      → is_sync c ≡ true
      → count c cs ≡ 1
      → StartsWith deployments_key k
      → C.get (call_each C is_sync cs s) k ≡ none
  unfolding call_each
  get-call_each c [] s k sync h starts = absurd (omega (arith, h))
  get-call_each c (d ∷ cs) s k sync h starts = elim (Bool-cases (is_sync d)) [
    | inl e ↦ rw e (
        get-call_each-none cs (C.invalidate s deployments_key) k
          (get-invalidate_prefix s deployments_key k starts))
    | inr e ↦ rw e (get-call_each c cs s k sync (others e) starts)
  ]
    where
      others : is_sync d ≡ false → count c cs ≡ 1
      others e = elim (Bool-cases (d == c)) [
        | inl same ↦ absurd (clash (sym e ∙ (ap is_sync ((==_iff d c).0 same) ∙ sync)))
        | inr other ↦ omega (arith, rw other at h)
      ]
        where
          clash : false ≡ true → ⊥
          clash k = cc

  module _ {Raw : Type 0} (treat : Reading → Raw → Data) (encode : Text → Text)
      (show : ℕ → Text) where
    -- As long as a callback of the hook is subscribed, whatever has happened to the connection and to
    -- other subscriptions, a visit after a message of the topic to an enabled query of the deployments
    -- shows what the server answers then.
    pub received_shown :
        (es : List Event) (c : ℕ) (w : World C treat encode show) (q : Query) (d : Data)
        → is_sync c ≡ true
        → wanted deployments_topic c es false ≡ true
        → StartsWith deployments_key (key q)
        → enabled q ≡ true
        → answer C treat encode show w.server q ≡ some d
        → C.get
            (visit C treat encode show
              (record w { cache = receive C is_sync (run initial es).0 w.cache })
              q)
            (key q)
          ≡ some d
    unfolding receive visit store
    received_shown es c w q d sync on starts able current = rw (
      able,
      get-call_each c (on_message deployments_topic (run initial es).0) w.cache (key q) sync
          (run_refines deployments_topic c es ∙ rw on) starts,
      current,
      C.get-set_self (call_each C is_sync (on_message deployments_topic (run initial es).0) w.cache)
          (key q) d,
    )
