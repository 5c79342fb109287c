-- ===== src/Hooks/CacheLaws.antt =====
-- What the hooks show after any run of visits, mutations and events is what the server has.
use llmplane.Common.{
  ℕ, ◌≡◌, ◌⊎◌, inl, inr, refl, sym, ap, ◌∙◌, true, [], ◌∷◌, Option, none, some, Bool-cases,
  Option-cases, Text, text,
}
use llmplane.Hooks.Keys.{Key, str, Reading}
use llmplane.Hooks.Queries.{Query, key, path, enabled}
use llmplane.Hooks.QueryLaws.{HasEndpoint, key_decides}
use llmplane.Hooks.Mutations.{Mutation, create_deployment, target, invalidated}
use llmplane.Hooks.MutationLaws.{IsResource, segment, segment_from, invalidated_iff}
use llmplane.Hooks.Cache.{
  QueryCache, Server, World, answer, store, visit, ChangesOnly, Step, visits, mutates, notifies,
  drifts, expires, Reach, rests, steps, IsCoherent,
}

IsResource-HasEndpoint : (q : Query) → IsResource q → HasEndpoint q
IsResource-HasEndpoint (Query.paginated endpoint on cursor page_size) h = absurd h
IsResource-HasEndpoint q h = tt

module _ {Raw Data : Type 0} (C : QueryCache Data) (treat : Reading → Raw → Data)
    (encode : Text → Text) (show : ℕ → Text) where
  -- Queries with the same key are answered alike.
  answer-key :
      (s : Server C treat encode show) (p q : Query)
      → IsResource p
      → IsResource q
      → key p ≡ key q
      → answer C treat encode show s p ≡ answer C treat encode show s q
  unfolding answer
  answer-key s p q hp hq e =
      let (paths, readings) =
        key_decides encode show p q (IsResource-HasEndpoint p hp) (IsResource-HasEndpoint q hq) e in
      rw (paths, readings)

  get-store :
      (s : C.State) (k l : Key) (o : Option Data) (e : Data)
      → C.get (store C treat encode show s k o) l ≡ some e
      → ((l ≡ k) × (o ≡ some e)) ⊎ (C.get s l ≡ some e)
  unfolding store
  get-store s k l none e h = inr h
  get-store s k l (some d) e h = elim (C.get-set s k l d e h) [
    | inl (there, same) ↦ inl (there, ap some (sym same))
    | inr before ↦ inr before
  ]

  -- What is fresh after a visit was fresh before it, or is the query's answer.
  get-visit :
      (w : World C treat encode show) (q : Query) (l : Key) (e : Data)
      → C.get (visit C treat encode show w q) l ≡ some e
      → ((l ≡ key q) × (answer C treat encode show w.server q ≡ some e))
        ⊎ (C.get w.cache l ≡ some e)
  unfolding visit
  get-visit w q l e h = elim (Bool-cases (enabled q)) [
    | inl on ↦ elim (Option-cases (C.get w.cache (key q))) [
      | inl old ↦
          get-store w.cache (key q) l (answer C treat encode show w.server q) e (rw (on, old) at h)
      | inr (d, old) ↦ inr (rw (on, old) at h)
    ]
    | inr off ↦ inr (rw off at h)
  ]

module _ {Raw Data : Type 0} (C : QueryCache Data) (treat : Reading → Raw → Data)
    (encode : Text → Text) (show : ℕ → Text) (IsBehind : Text → Type 0) where
  visit-IsCoherent :
      (w : World C treat encode show) (q : Query)
      → IsResource q
      → IsCoherent C treat encode show IsBehind w
      → IsCoherent C treat encode show IsBehind (record w { cache = visit C treat encode show w q })
  visit-IsCoherent w q hq c r d hr up got = elim (get-visit C treat encode show w q (key r) d got) [
    | inl (same, current) ↦ answer-key C treat encode show w.server r q hr hq same ∙ current
    | inr before ↦ c r d hr up before
  ]

  -- Invalidation drops what the mutation may have changed.
  invalidate-IsCoherent :
      (w : World C treat encode show) (m : Mutation) (p : Key) (after : Server C treat encode show)
      → invalidated m ≡ some p
      → ChangesOnly C treat encode show IsBehind (segment (target m)) w.server after
      → IsCoherent C treat encode show IsBehind w
      → IsCoherent C treat encode show IsBehind
          (record { cache = C.invalidate w.cache p; server = after })
  unfolding answer
  invalidate-IsCoherent w m p after e only c q d hq up got =
      let (kept, elsewhere) = C.get-invalidate w.cache p (key q) d got in
      let (to, from) = invalidated_iff encode show m p q hq e in
      let same : after (path encode show q) ≡ w.server (path encode show q) =
        only (path encode show q) (λ s. elsewhere (from (sym s))) up in
      rw same (c q d hq up kept)

  drifts-IsCoherent :
      (w : World C treat encode show) (after : Server C treat encode show)
      → ((x : Text) → ¬ IsBehind (segment x) → after x ≡ w.server x)
      → IsCoherent C treat encode show IsBehind w
      → IsCoherent C treat encode show IsBehind (record w { server = after })
  unfolding answer
  drifts-IsCoherent w after same c q d hq up got =
      rw (same (path encode show q) up) (c q d hq up got)

  Step-IsCoherent :
      (v w : World C treat encode show)
      → Step C treat encode show IsBehind v w
      → IsCoherent C treat encode show IsBehind v
      → IsCoherent C treat encode show IsBehind w
  unfolding invalidated target segment_from
  Step-IsCoherent v w (visits q hq) c = visit-IsCoherent v q hq c
  Step-IsCoherent v w (mutates m p after e only) c = invalidate-IsCoherent v m p after e only c
  Step-IsCoherent v w (notifies after only) c =
      invalidate-IsCoherent v create_deployment (str (text "deployments") ∷ []) after refl only c
  Step-IsCoherent v w (drifts after same) c = drifts-IsCoherent v after same c
  Step-IsCoherent v w (expires s older) c = λ q d hq up got. c q d hq up (older (key q) d got)

  Reach-IsCoherent :
      (v w : World C treat encode show)
      → Reach C treat encode show IsBehind v w
      → IsCoherent C treat encode show IsBehind v
      → IsCoherent C treat encode show IsBehind w
  Reach-IsCoherent v w rests c = c
  Reach-IsCoherent v w (steps {v = u} run last) c =
      Step-IsCoherent u w last (Reach-IsCoherent v u run c)

  -- After any run from a coherent cache, such as an empty one, of visits, successful mutations, events,
  -- expiries and changes of what is behind, in any order, whatever is fresh and not behind is what the
  -- server would answer, and an enabled query of a resource that is not behind, if it is visited, shows what
  -- the server answers at that moment. Behind are the resources whose answers may change with no
  -- invalidation: any set of them, but all answers that a mutation or an event changes outside the
  -- resource that it names must be in it.
  pub visit_current :
      (v w : World C treat encode show) (q : Query) (d : Data)
      → IsCoherent C treat encode show IsBehind v
      → Reach C treat encode show IsBehind v w
      → IsResource q
      → ¬ IsBehind (segment (path encode show q))
      → enabled q ≡ true
      → answer C treat encode show w.server q ≡ some d
      → IsCoherent C treat encode show IsBehind w
        × (C.get (visit C treat encode show w q) (key q) ≡ some d)
  unfolding visit store
  visit_current v w q d c run hq up on current =
      let cw : IsCoherent C treat encode show IsBehind w = Reach-IsCoherent v w run c in
      (
        cw,
        elim (Option-cases (C.get w.cache (key q))) [
          | inl empty ↦ rw (on, empty, current, C.get-set_self w.cache (key q) d)
          | inr (e, held) ↦ rw (on, held) (held ∙ (sym (cw q e hq up held) ∙ current))
        ],
      )
