-- ===== src/Scene/DrawLaws.antt =====
-- What the drawing code of frontend/components/command-center/Scene2D.tsx looks up is on the map.
use llmplane.Common.{
  ℕ, zero, suc, ◌-◌, ◌<◌, min, ◌≡◌, refl, inl, inr, sym, ap, Bool, true, false, List, [], ◌∷◌, ◌++◌,
  ◌∙◌, ◌&&◌, ltb, map, Option, some, Text, text, text_eq, text_eq_iff, length, is_empty,
  if◌then◌else◌, Has, All, All-append, keep_if, Option-cases, arith,
}
use mathlib.Core.Path.{subst}
use llmplane.Topology.Types.{
  InfraNode, Position, Numbers, ProviderLike, DeploymentLike, DashboardSummaryLike,
}
use llmplane.Topology.Build.{build_topology, is_model_kind}
use llmplane.Topology.Graph.{node_ids, node_ids-nodes, HasHubs, backbone-HasHubs}
use llmplane.Scene.Particles.{
  Particle, Arithmetic, Draw, Flow, Tick, at_index, capacity, stops, path_through, position_of,
  project, new_particle, spawn, move, advance, ends, frame, frames,
}

position_of-Has :
    {Num : Type 0} (id : Text) (ns : List (InfraNode Num))
    → Has id (node_ids ns)
    → (p : Position) × (position_of id ns ≡ some p)
unfolding position_of
position_of-Has id [] h = elim h [ ]
position_of-Has id (n ∷ ns) h = elim (Option-cases (position_of id ns)) [
  | inl e ↦ elim h [
    | inl same ↦ (n.position, ground (arith, e, same, text_eq_iff n.id id))
    | inr later ↦ let found = position_of-Has id ns later in (found.0, ground (arith, e, found.1))
  ]
  | inr (p, e) ↦ (p, ground (arith, e))
]

at_index-Has :
    (i : ℕ) (xs : List Text) → i < length xs → (x : Text) × Has x xs × (at_index i xs ≡ some x)
at_index-Has i [] h = absurd (omega (arith, h))
at_index-Has zero (x ∷ xs) h = (x, inl refl, refl)
at_index-Has (suc i) (x ∷ xs) h =
    let (y, k, e) = at_index-Has i xs (omega (arith, h)) in (y, inr k, e)

-- The draws stay in the list, as `Math.random` stays below 1.
abbrev pub InRange : {Num : Type 0} → (ℕ → Draw Num) → Type 0
InRange draws = (k n : ℕ) → 0 < n → (draws k).index n < n

length-path_through : (pid : Option Text) → length (path_through pid) ≡ 5
unfolding path_through stops
length-path_through pid = omega arith

module _ {Num : Type 0} (ns : List (InfraNode Num)) where
  abbrev pub IsTick : Tick Num → Type 0
  IsTick f = All (λ id. Has id (node_ids ns)) f.ids × InRange f.draws

  abbrev IsOnMap : Particle Num → Type 0
  IsOnMap p = (id : Text) × Has id (node_ids ns) × (p.ids ≡ path_through (some id))

  -- Both ends of the stretch that the particle is on have a position.
  abbrev pub IsDrawn : Arithmetic Num → Particle Num → Type 0
  IsDrawn a p = (x : Position) × (y : Position) × (ends a ns p ≡ (some x, some y))

  All-at :
      (ids : List Text) (x : Text)
      → All (λ id. Has id (node_ids ns)) ids
      → Has x ids
      → Has x (node_ids ns)
  All-at [] x h k = elim k [ ]
  All-at (y ∷ ids) x (h, hs) (inl e) = subst (λ z. Has z (node_ids ns)) (sym e) h
  All-at (y ∷ ids) x (h, hs) (inr k) = All-at ids x hs k

  new_particle-IsOnMap :
      (a : Arithmetic Num) (ids : List Text) (d : Draw Num)
      → All (λ id. Has id (node_ids ns)) ids
      → is_empty ids ≡ false
      → ((n : ℕ) → 0 < n → d.index n < n)
      → IsOnMap (new_particle a ids d)
  unfolding new_particle
  new_particle-IsOnMap a [] d h e r = cc
  new_particle-IsOnMap a (i ∷ ids) d h e r =
      let (x, k, q) =
        at_index-Has (d.index (length (i ∷ ids))) (i ∷ ids) (r (length (i ∷ ids)) (omega arith)) in
      (x, All-at (i ∷ ids) x h k, ap path_through q)

  spawn-IsOnMap :
      (a : Arithmetic Num) (ids : List Text) (draws : ℕ → Draw Num)
      → All (λ id. Has id (node_ids ns)) ids
      → InRange draws
      → (fuel k : ℕ) (s : Flow Num) → All IsOnMap s.particles
      → All IsOnMap (spawn a fuel ids draws k s).particles
  unfolding spawn
  spawn-IsOnMap a ids draws h r zero k s m = m
  spawn-IsOnMap a ids draws h r (suc fuel) k s m =
      let p = new_particle a ids (draws k) in
      let pushed = record s { acc = a.minus_one s.acc; particles = s.particles ++ p ∷ [] } in
      round (a.at_least_one s.acc && ltb (length s.particles) capacity) (is_empty ids) refl
        (spawn a fuel ids draws (suc k) pushed)
        (λ e. spawn-IsOnMap a ids draws h r fuel (suc k) pushed (
          All-append IsOnMap s.particles (p ∷ []) m
            (new_particle-IsOnMap a ids (draws k) h e (r k), tt)))
    where
      round :
          (guard e : Bool)
          → is_empty ids ≡ e
          → (later : Flow Num) → (is_empty ids ≡ false → All IsOnMap later.particles)
          → All IsOnMap
              (if guard
                then (if e then record s { acc = a.minus_one s.acc } else later)
                else s).particles
      round false e q later f = m
      round true true q later f = m
      round true false q later f = f q

  advance-IsOnMap :
      (a : Arithmetic Num) (dt : Num) (ps : List (Particle Num))
      → All IsOnMap ps
      → All IsOnMap (advance a dt ps)
  unfolding advance move
  advance-IsOnMap a dt [] h = tt
  advance-IsOnMap a dt (p ∷ ps) (h, hs) =
      keep (a.at_least_one (move a dt p).t) (advance a dt ps) (advance-IsOnMap a dt ps hs)
    where
      keep :
          (arrived : Bool) (rest : List (Particle Num))
          → All IsOnMap rest
          → All IsOnMap (if arrived then rest else move a dt p ∷ rest)
      keep true rest k = k
      keep false rest k = (h, k)

  at_path :
      (id : Text) (i : ℕ)
      → HasHubs (node_ids ns)
      → Has id (node_ids ns)
      → i < 5
      → (x : Position) × (project ns (at_index i (path_through (some id))) ≡ some x)
  unfolding path_through stops text_eq project
  at_path id zero h k l = position_of-Has (text "clients") ns h.clients
  at_path id (suc zero) h k l = position_of-Has (text "gateway") ns h.gateway
  at_path id (suc (suc zero)) h k l = position_of-Has id ns k
  at_path id (suc (suc (suc zero))) h k l = position_of-Has (text "evaluation") ns h.evaluation
  at_path id (suc (suc (suc (suc zero)))) h k l = position_of-Has (text "database") ns h.database
  at_path id (suc (suc (suc (suc (suc i))))) h k l = absurd (omega (arith, l))

  IsOnMap-IsDrawn :
      (a : Arithmetic Num) (p : Particle Num) → HasHubs (node_ids ns) → IsOnMap p → IsDrawn a p
  unfolding ends
  IsOnMap-IsDrawn a p h (id, k, e) =
      let seg = min (a.floor_times p.t (length p.ids - 1)) (length p.ids - 1 - 1) in
      let n : length p.ids ≡ 5 = ap length e ∙ length-path_through (some id) in
      let l : suc seg < 5 = omega (arith, n) in
      let (x, q) = at_path id seg h k (omega (arith, l)) in
      let (y, r) = at_path id (suc seg) h k l in
      let here : project ns (at_index seg p.ids) ≡ some x =
        ap (λ ids. project ns (at_index seg ids)) e ∙ q in
      let there : project ns (at_index (suc seg) p.ids) ≡ some y =
        ap (λ ids. project ns (at_index (suc seg) ids)) e ∙ r in
      (x, y, λ i. (here i, there i))

  frames-IsOnMap :
      (a : Arithmetic Num) (fs : List (Tick Num)) (s : Flow Num)
      → All IsTick fs
      → All IsOnMap s.particles
      → All IsOnMap (frames a fs s).particles
  unfolding frames frame
  frames-IsOnMap a [] s h m = m
  frames-IsOnMap a (f ∷ fs) s ((h, r), hs) m =
      let start = record s { acc = a.plus s.acc (a.times f.rate f.dt) } in
      frames-IsOnMap a fs (frame a f.rate f.dt f.ids f.draws s) hs (
        advance-IsOnMap a f.dt (spawn a capacity f.ids f.draws 0 start).particles
          (spawn-IsOnMap a f.ids f.draws h r capacity 0 start m))

  All-IsDrawn :
      (a : Arithmetic Num) (ps : List (Particle Num))
      → HasHubs (node_ids ns)
      → All IsOnMap ps
      → All (IsDrawn a) ps
  All-IsDrawn a [] h m = tt
  All-IsDrawn a (p ∷ ps) h (k, m) = (IsOnMap-IsDrawn a p h k, All-IsDrawn a ps h m)

provider_node_ids-Has :
    {Num : Type 0} (q : InfraNode Num → Bool) (ns ms : List (InfraNode Num))
    → ((id : Text) → Has id (node_ids ms) → Has id (node_ids ns))
    → All (λ id. Has id (node_ids ns)) (map (λ n. n.id) (keep_if q ms))
provider_node_ids-Has {Num} q ns [] sub = tt
provider_node_ids-Has {Num} q ns (m ∷ ms) sub =
    keep (q m) (keep_if q ms) (provider_node_ids-Has q ns ms (λ id h. sub id (inr h)))
  where
    keep :
        (b : Bool) (rest : List (InfraNode Num))
        → All (λ id. Has id (node_ids ns)) (map (λ n. n.id) rest)
        → All (λ id. Has id (node_ids ns)) (map (λ n. n.id) (if b then m ∷ rest else rest))
    keep true rest h = (sub m.id (inl refl), h)
    keep false rest h = h

module _ {Num : Type 0} (numbers : Numbers Num) (ps : List (ProviderLike Num))
    (ds : List (DeploymentLike Num)) (summary : Option (DashboardSummaryLike Num)) where
  map_ids-Has :
      All
        (λ id. Has id (node_ids (build_topology numbers ps ds summary).nodes))
        (build_topology numbers ps ds summary).provider_node_ids
  unfolding build_topology
  map_ids-Has =
      let ns = (build_topology numbers ps ds summary).nodes in
      provider_node_ids-Has (λ n. is_model_kind n.kind) ns ns (λ id h. h)

  -- Live traffic runs on the map: after any number of frames from an empty scene, each with the ids that
  -- the map gives for the traffic and with draws in their range, both nodes that a moving point is drawn
  -- between have a position on the map.
  pub frames-IsDrawn :
      (a : Arithmetic Num) (fs : List (Tick Num)) (acc : Num)
      → All
          (λ f.
            (f.ids ≡ (build_topology numbers ps ds summary).provider_node_ids) × InRange f.draws)
          fs
      → All
          (IsDrawn (build_topology numbers ps ds summary).nodes a)
          (frames a fs (record { acc = acc; particles = [] })).particles
  frames-IsDrawn a fs acc h =
      let ns = (build_topology numbers ps ds summary).nodes in
      All-IsDrawn ns a _
        (subst HasHubs (sym (node_ids-nodes numbers ps ds summary))
          (backbone-HasHubs numbers ps ds summary _))
        (frames-IsOnMap ns a fs (record { acc = acc; particles = [] }) (ticks fs h) tt)
    where
      ticks :
          (fs : List (Tick Num))
          → All
              (λ f.
                (f.ids ≡ (build_topology numbers ps ds summary).provider_node_ids)
                × InRange f.draws)
              fs
          → All (IsTick (build_topology numbers ps ds summary).nodes) fs
      ticks [] h = tt
      ticks (f ∷ fs) ((e, r), h) = (
        (
          subst
              (λ ids.
                All (λ id. Has id (node_ids (build_topology numbers ps ds summary).nodes)) ids)
              (sym e) map_ids-Has,
          r,
        ),
        ticks fs h,
      )
