-- ===== src/Scene/Stream.antt =====
-- The particles of the 3D scene, frontend/components/command-center/RequestParticles.tsx: the loop that
-- adds them, their curves, and the instances that are drawn. Numbers and draws are those of
-- Scene.Particles, and `cap` is `Math.min(delta, 0.05)`.
use llmplane.Common.{
  ℕ, zero, suc, ◌&&◌, List, [], ◌∷◌, ◌++◌, Option, none, some, Text, text, length, is_empty,
  if◌then◌else◌, ltb,
}
use llmplane.Topology.Types.{InfraNode, Position}
use llmplane.Scene.Particles.{Arithmetic, Draw, Outcome, at_index, position_of}

-- `Particle`: the points of its curve; a point is none where the source has `undefined`.
pub record Comet (Num : Type 0) : Type 0 where
  pub curve : List (Option Position)
  pub t : Num
  pub speed : Num
  pub status : Outcome

-- `accumulator` and `particles`.
pub record Stream (Num : Type 0) : Type 0 where
  pub acc : Num
  pub comets : List (Comet Num)

abbrev pub capacity : ℕ
capacity = 280

-- `posMap.get(pid) ?? pathPoints.gateway`, where no id is drawn of an empty list.
unfoldable pub provider_point :
    {Num : Type 0} → List (InfraNode Num) → Option Text → Option Position
unfolding position_of
provider_point ns none = position_of (text "gateway") ns
provider_point ns (some id) = elim (position_of id ns) [
  | none ↦ position_of (text "gateway") ns
  | some p ↦ some p
]

unfoldable pub curve_through :
    {Num : Type 0} → List (InfraNode Num) → Option Text → List (Option Position)
unfolding provider_point position_of
curve_through ns pid =
    position_of (text "clients") ns
    ∷ position_of (text "gateway") ns
    ∷ provider_point ns pid
    ∷ position_of (text "evaluation") ns
    ∷ position_of (text "database") ns
    ∷ []

module _ {Num : Type 0} (a : Arithmetic Num) where
  open a use {plus, times, at_least_one}

  -- The `filter`, whose test moves each particle.
  unfoldable pub advance : Num → List (Comet Num) → List (Comet Num)
  advance dt [] = []
  advance dt (p ∷ ps) =
      let rest = advance dt ps in
      let moved = record p { t = plus p.t (times p.speed dt) } in
      if at_least_one moved.t then rest else moved ∷ rest

module _ {Num : Type 0} (a : Arithmetic Num) (ns : List (InfraNode Num)) where
  open a use {plus, times, minus_one, at_least_one, none_yet}

  unfoldable pub new_comet : List Text → Draw Num → Comet Num
  unfolding curve_through
  new_comet ids d = record {
    curve = curve_through ns (at_index (d.index (length ids)) ids);
    t = none_yet;
    speed = d.speed;
    status = d.status;
  }

  -- The `while`, on fuel; the draws of the rounds are numbered from `k`.
  unfoldable pub spawn : ℕ → List Text → (ℕ → Draw Num) → ℕ → Stream Num → Stream Num
  unfolding new_comet
  spawn zero ids draws k s = s
  spawn (suc fuel) ids draws k s =
      let pushed = record s {
        acc = minus_one s.acc;
        comets = s.comets ++ new_comet ids (draws k) ∷ [];
      } in
      let later = spawn fuel ids draws (suc k) pushed in
      let spent = record s { acc = minus_one s.acc } in
      if at_least_one s.acc && ltb (length s.comets) capacity
      then (if is_empty ids then spent else later)
      else s

  -- `useFrame`, on the particles.
  unfoldable pub frame :
      (Num → Num) → Num → Num → List Text → (ℕ → Draw Num) → Stream Num → Stream Num
  unfolding spawn advance
  frame cap rate delta ids draws s =
      let dt = cap delta in
      let spawned = spawn capacity ids draws 0 (record s { acc = plus s.acc (times rate dt) }) in
      record spawned { comets = advance a dt spawned.comets }

-- The instances of the mesh: a particle, or none for one of scale 0.
unfoldable pub instances : {Num : Type 0} → ℕ → List (Comet Num) → List (Option (Comet Num))
instances zero ps = []
instances (suc n) [] = none ∷ instances n []
instances (suc n) (p ∷ ps) = some p ∷ instances n ps

-- A frame: the rate, the time since the last one, the ids of the traffic and the draws.
pub record Moment (Num : Type 0) : Type 0 where
  pub rate : Num
  pub delta : Num
  pub ids : List Text
  pub draws : ℕ → Draw Num

unfoldable pub frames :
    {Num : Type 0}
    → Arithmetic Num
    → List (InfraNode Num)
    → (Num → Num)
    → List (Moment Num)
    → Stream Num
    → Stream Num
unfolding frame
frames a ns cap [] s = s
frames a ns cap (f ∷ fs) s = frames a ns cap fs (frame a ns cap f.rate f.delta f.ids f.draws s)
