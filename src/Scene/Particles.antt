-- ===== src/Scene/Particles.antt =====
-- The moving points of frontend/components/command-center/Scene2D.tsx: the loop that adds them at
-- the rate of the traffic, the loop that moves them, and the two nodes that each is drawn between.
-- JavaScript's numbers and their operations are parameters, and so is `Math.random`, of which a
-- frame has a draw for each round of its loop.
use llmplane.Common.{
  ℕ, zero, suc, ◌-◌, min, Bool, ◌&&◌, List, [], ◌∷◌, ◌++◌, map, Option, none, some, Text, text,
  text_eq, length, is_empty, if◌then◌else◌, ltb,
}
use llmplane.Topology.Types.{InfraNode, Position}

pub data Outcome : Type 0 where
  success error : Outcome

-- `P2D`; an id is none where the source has `undefined`.
pub record Particle (Num : Type 0) : Type 0 where
  pub ids : List (Option Text)
  pub t : Num
  pub speed : Num
  pub status : Outcome

-- `+`, `*`, `- 1`, `>= 1`, `0` and `Math.floor(t * n)`.
pub record Arithmetic (Num : Type 0) : Type 0 where
  pub plus : Num → Num → Num
  pub times : Num → Num → Num
  pub minus_one : Num → Num
  pub at_least_one : Num → Bool
  pub none_yet : Num
  pub floor_times : Num → ℕ → ℕ

-- What one round draws: `index n` is `Math.floor(Math.random() * n)`.
pub record Draw (Num : Type 0) : Type 0 where
  pub index : ℕ → ℕ
  pub speed : Num
  pub status : Outcome

-- `acc` and `particles`.
pub record Flow (Num : Type 0) : Type 0 where
  pub acc : Num
  pub particles : List (Particle Num)

-- `xs[i]`.
abbrev pub at_index : {A : Type 0} → ℕ → List A → Option A
at_index n [] = none
at_index zero (x ∷ xs) = some x
at_index (suc n) (x ∷ xs) = at_index n xs

abbrev pub capacity : ℕ
capacity = 140

unfoldable pub stops : List Text
stops =
    text "clients" ∷ text "gateway" ∷ text "__provider__" ∷ text "evaluation" ∷ text "database" ∷ []

-- `PATH.map(...)`.
unfoldable pub path_through : Option Text → List (Option Text)
unfolding stops
path_through pid = map (λ x. if text_eq x (text "__provider__") then pid else some x) stops

-- `posMap.get(id)`: the last node of the id counts.
unfoldable pub position_of : {Num : Type 0} → Text → List (InfraNode Num) → Option Position
position_of id [] = none
position_of id (n ∷ ns) = elim (position_of id ns) [
  | none ↦ if text_eq n.id id then some n.position else none
  | some p ↦ some p
]

-- `project` of an id that a particle has, up to the scale; none where the source reads a field of
-- `undefined`.
unfoldable pub project :
    {Num : Type 0} → List (InfraNode Num) → Option (Option Text) → Option Position
unfolding position_of
project ns none = none
project ns (some none) = none
project ns (some (some id)) = position_of id ns

module _ {Num : Type 0} (a : Arithmetic Num) where
  open a use {plus, times, minus_one, at_least_one, none_yet, floor_times}

  unfoldable pub new_particle : List Text → Draw Num → Particle Num
  unfolding path_through
  new_particle ids d = record {
    ids = path_through (at_index (d.index (length ids)) ids);
    t = none_yet;
    speed = d.speed;
    status = d.status;
  }

  -- The `while`, on fuel; the draws of the rounds are numbered from `k`.
  unfoldable pub spawn : ℕ → List Text → (ℕ → Draw Num) → ℕ → Flow Num → Flow Num
  unfolding new_particle
  spawn zero ids draws k s = s
  spawn (suc fuel) ids draws k s =
      let pushed = record s {
        acc = minus_one s.acc;
        particles = s.particles ++ new_particle ids (draws k) ∷ [];
      } in
      let later = spawn fuel ids draws (suc k) pushed in
      let spent = record s { acc = minus_one s.acc } in
      if at_least_one s.acc && ltb (length s.particles) capacity
      then (if is_empty ids then spent else later)
      else s

  unfoldable pub move : Num → Particle Num → Particle Num
  move dt p = record p { t = plus p.t (times p.speed dt) }

  -- The loop from the last particle to the first, which takes out those that have arrived.
  unfoldable pub advance : Num → List (Particle Num) → List (Particle Num)
  unfolding move
  advance dt [] = []
  advance dt (p ∷ ps) =
      let rest = advance dt ps in
      let moved = move dt p in if at_least_one moved.t then rest else moved ∷ rest

  -- The positions of the two nodes that a particle is between.
  unfoldable pub ends : List (InfraNode Num) → Particle Num → Option Position × Option Position
  unfolding project
  ends ns p =
      let segs = length p.ids - 1 in
      let seg = min (floor_times p.t segs) (segs - 1) in
      (project ns (at_index seg p.ids), project ns (at_index (suc seg) p.ids))

  -- What one call of `draw` does to the particles; the particles left are those drawn.
  unfoldable pub frame : Num → Num → List Text → (ℕ → Draw Num) → Flow Num → Flow Num
  unfolding spawn advance
  frame rate dt ids draws s =
      let spawned = spawn capacity ids draws 0 (record s { acc = plus s.acc (times rate dt) }) in
      record spawned { particles = advance dt spawned.particles }

-- One call of `draw`: the rate, the time since the last one, the ids of the traffic and the draws.
pub record Tick (Num : Type 0) : Type 0 where
  pub rate : Num
  pub dt : Num
  pub ids : List Text
  pub draws : ℕ → Draw Num

unfoldable pub frames : {Num : Type 0} → Arithmetic Num → List (Tick Num) → Flow Num → Flow Num
unfolding frame
frames a [] s = s
frames a (f ∷ fs) s = frames a fs (frame a f.rate f.dt f.ids f.draws s)
