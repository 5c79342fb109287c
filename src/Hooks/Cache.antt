-- ===== src/Hooks/Cache.antt =====
-- The hooks of frontend/hooks/ over the cache of TanStack Query, whose documented behaviour is the
-- interface `QueryCache`, and over a server that answers by path. Only what the hooks do to the cache
-- is modelled: a visit to a query, the success of a mutation, and `useDeploymentLiveSync`.
use llmplane.Common.{◌≡◌, ◌≢◌, ◌⊎◌, [], ◌∷◌, Option, none, some, Text, text, if◌then◌else◌, ℕ}
use mathlib.Core.Option.{map}
use llmplane.Hooks.Keys.{Key, str, Reading}
use llmplane.Hooks.Queries.{Query, key, reading, path, enabled}
use llmplane.Hooks.Mutations.{Mutation, target, invalidated}
use llmplane.Hooks.MutationLaws.{IsResource, StartsWith, segment}

-- `get` is the fresh data under a key. What is set is there, nothing else becomes so by it, and
-- nothing under a key with the prefix is fresh once the prefix has been invalidated.
pub record QueryCache (Data : Type 0) : Type 1 where
  pub State : Type 0
  pub get : State → Key → Option Data
  pub set : State → Key → Data → State
  pub invalidate : State → Key → State
  pub get-set_self : (s : State) (k : Key) (d : Data) → get (set s k d) k ≡ some d
  pub get-set :
      (s : State) (k l : Key) (d e : Data)
      → get (set s k d) l ≡ some e
      → ((l ≡ k) × (e ≡ d)) ⊎ (get s l ≡ some e)
  pub get-invalidate :
      (s : State) (p k : Key) (e : Data)
      → get (invalidate s p) k ≡ some e
      → (get s k ≡ some e) × ¬ StartsWith p k

-- `treat` is what the hooks do with an answer by its reading.
module _ {Raw Data : Type 0} (C : QueryCache Data) (treat : Reading → Raw → Data)
    (encode : Text → Text) (show : ℕ → Text) where
  -- A server answers a path, or fails.
  abbrev pub Server : Type 0
  Server = Text → Option Raw

  pub record World : Type 0 where
    pub cache : C.State
    pub server : Server

  -- What `queryFn` resolves to.
  unfoldable pub answer : Server → Query → Option Data
  answer server q = map (treat (reading q)) (server (path encode show q))

  unfoldable pub store : C.State → Key → Option Data → C.State
  store s k none = s
  store s k (some d) = C.set s k d

  -- A component that uses the query is mounted: nothing is asked for while there is fresh data or the
  -- query is not enabled, and a failure stores nothing.
  unfoldable pub visit : World → Query → C.State
  unfolding answer store
  visit w q =
      if enabled q
      then elim (C.get w.cache (key q)) [
        | none ↦ store w.cache (key q) (answer w.server q)
        | some d ↦ w.cache
      ]
      else w.cache

  -- `IsBehind` are the first segments of paths whose answers change without an invalidation, as those of
  -- "providers" do when a deployment is created.
  module _ (IsBehind : Text → Type 0) where
    -- Only answers under such a first segment, or behind, differ.
    abbrev pub ChangesOnly : Text → Server → Server → Type 0
    ChangesOnly slug before after =
        (x : Text) → segment x ≢ slug → ¬ IsBehind (segment x) → after x ≡ before x

    pub data Step : World → World → Type 0 where
      visits : {w : World} (q : Query) → IsResource q → Step w (record w { cache = visit w q })
      -- A mutation succeeds, and `onSuccess` invalidates.
      mutates :
          {w : World} (m : Mutation) (p : Key) (after : Server)
          → invalidated m ≡ some p
          → ChangesOnly (segment (target m)) w.server after
          → Step w (record { cache = C.invalidate w.cache p; server = after })
      -- A worker changes a deployment, and the event invalidates.
      notifies :
          {w : World} (after : Server)
          → ChangesOnly (text "deployments") w.server after
          → Step w (record {
            cache = C.invalidate w.cache (str (text "deployments") ∷ []);
            server = after;
          })
      -- What is behind changes for other reasons.
      drifts :
          {w : World} (after : Server)
          → ((x : Text) → ¬ IsBehind (segment x) → after x ≡ w.server x)
          → Step w (record w { server = after })
      -- Fresh data become stale, by their age or otherwise.
      expires :
          {w : World} (s : C.State)
          → ((k : Key) (d : Data) → C.get s k ≡ some d → C.get w.cache k ≡ some d)
          → Step w (record w { cache = s })

    pub data Reach : World → World → Type 0 where
      rests : {w : World} → Reach w w
      steps : {u v w : World} → Reach u v → Step v w → Reach u w

    -- Whatever is fresh in the cache, and not behind, is what the server would answer now.
    abbrev pub IsCoherent : World → Type 0
    IsCoherent w =
        (q : Query) (d : Data)
        → IsResource q
        → ¬ IsBehind (segment (path encode show q))
        → C.get w.cache (key q) ≡ some d
        → answer w.server q ≡ some d
