-- ===== src/Scene/StreamLaws.antt =====
-- The 3D scene keeps to its capacity, draws every particle that it has, and never looks up a node that
-- is not there.
use llmplane.Common.{
  ℕ, zero, suc, ◌+◌, ◌≤◌, ◌≡◌, sym, ap, ◌∙◌, refl, inl, inr, Bool-cases, Option-cases, true, ◌&&◌,
  List, [], ◌∷◌, ◌++◌, Option, none, some, Text, text, length, length-append, All, All-append,
  is_empty, if◌then◌else◌, ltb, arith,
}
use llmplane.Topology.Types.{InfraNode}
use llmplane.Scene.Particles.{Arithmetic, Draw, at_index, position_of}
use llmplane.Scene.Stream.{
  Comet, Stream, Moment, capacity, provider_point, curve_through, new_comet, spawn, advance, frame,
  frames, instances,
}

-- The particles among the instances.
abbrev pub drawn : {Num : Type 0} → List (Option (Comet Num)) → List (Comet Num)
drawn [] = []
drawn (none ∷ is) = drawn is
drawn (some p ∷ is) = p ∷ drawn is

abbrev pub IsDefined : {A : Type 0} → Option A → Type 0
IsDefined none = ⊥
IsDefined (some p) = Unit

abbrev pub HasCurve : {Num : Type 0} → Comet Num → Type 0
HasCurve p = All IsDefined p.curve

abbrev pub IsFixed : {Num : Type 0} → List (InfraNode Num) → Type 0
IsFixed ns =
    IsDefined (position_of (text "clients") ns)
    × IsDefined (position_of (text "gateway") ns)
    × IsDefined (position_of (text "evaluation") ns)
    × IsDefined (position_of (text "database") ns)

length-instances : {Num : Type 0} (n : ℕ) (ps : List (Comet Num)) → length (instances n ps) ≡ n
unfolding instances
length-instances zero ps = refl
length-instances {Num} (suc n) [] = omega (arith, length-instances {Num = Num} n [])
length-instances (suc n) (p ∷ ps) = omega (arith, length-instances n ps)

drawn-none : {Num : Type 0} (n : ℕ) → drawn (instances {Num = Num} n []) ≡ []
unfolding instances
drawn-none zero = refl
drawn-none (suc n) = drawn-none n

drawn-instances :
    {Num : Type 0} (n : ℕ) (ps : List (Comet Num)) → length ps ≤ n → drawn (instances n ps) ≡ ps
unfolding instances
drawn-instances zero [] h = refl
drawn-instances zero (p ∷ ps) h = absurd (omega (arith, h))
drawn-instances (suc n) [] h = drawn-none n
drawn-instances (suc n) (p ∷ ps) h = rw (drawn-instances n ps (omega (arith, h)))

abbrev IsStream : {Num : Type 0} → List (Comet Num) → Type 0
IsStream ps = (length ps ≤ capacity) × All HasCurve ps

advance-IsStream :
    {Num : Type 0} (a : Arithmetic Num) (dt : Num) (ps : List (Comet Num))
    → (length (advance a dt ps) ≤ length ps) × (All HasCurve ps → All HasCurve (advance a dt ps))
unfolding advance
advance-IsStream a dt [] = (omega arith, λ h. h)
advance-IsStream a dt (p ∷ ps) =
    let (shorter, kept) = advance-IsStream a dt ps in
    elim (Bool-cases (a.at_least_one (a.plus p.t (a.times p.speed dt)))) [
      | inl e ↦ rw e (omega (arith, shorter), λ h. kept h.1)
      | inr e ↦ rw e (omega (arith, shorter), λ h. (h.0, kept h.1))
    ]

module _ {Num : Type 0} (a : Arithmetic Num) (ns : List (InfraNode Num)) (fixed : IsFixed ns) where
  provider_point-IsDefined : (pid : Option Text) → IsDefined (provider_point ns pid)
  unfolding provider_point
  provider_point-IsDefined none = fixed.1
  provider_point-IsDefined (some id) = elim (Option-cases (position_of id ns)) [
    | inl e ↦ rw (e, IsDefined) fixed.1
    | inr (p, e) ↦ rw (e, IsDefined) tt
  ]

  new_comet-HasCurve : (ids : List Text) (d : Draw Num) → HasCurve (new_comet a ns ids d)
  unfolding new_comet curve_through
  new_comet-HasCurve ids d = (
    fixed.0,
    (
      fixed.1,
      (provider_point-IsDefined (at_index (d.index (length ids)) ids), (fixed.2, (fixed.3, tt))),
    ),
  )

  -- One round, with what the later rounds make of the particle that it adds.
  round : List Text → Stream Num → Stream Num → Stream Num
  round ids later s =
      if a.at_least_one s.acc && ltb (length s.comets) capacity
      then (if is_empty ids then record s { acc = a.minus_one s.acc } else later)
      else s

  abbrev pushed : List Text → Draw Num → Stream Num → Stream Num
  pushed ids d s = record {
    acc = a.minus_one s.acc;
    comets = s.comets ++ new_comet a ns ids d ∷ [];
  }

  spawn-suc :
      (fuel k : ℕ) (ids : List Text) (draws : ℕ → Draw Num) (s : Stream Num)
      → spawn a ns (suc fuel) ids draws k s
        ≡ round ids (spawn a ns fuel ids draws (suc k) (pushed ids (draws k) s)) s
  unfolding spawn round
  spawn-suc fuel k ids draws s = refl

  spawn-IsStream :
      (fuel k : ℕ) (ids : List Text) (draws : ℕ → Draw Num) (s : Stream Num)
      → IsStream s.comets
      → IsStream (spawn a ns fuel ids draws k s).comets
  unfolding spawn
  spawn-IsStream zero k ids draws s h = h
  spawn-IsStream (suc fuel) k ids draws s h =
      elim (Bool-cases (a.at_least_one s.acc && ltb (length s.comets) capacity)) [
        | inr off ↦ rw off h
        | inl on ↦ elim (Bool-cases (is_empty ids)) [
          | inl none_there ↦ rw (on, none_there) h
          | inr there ↦
              rw (on, there)
                (spawn-IsStream fuel (suc k) ids draws (pushed ids (draws k) s) (
                  omega
                      (arith, length-append s.comets (new_comet a ns ids (draws k) ∷ []), below on),
                  All-append HasCurve s.comets (new_comet a ns ids (draws k) ∷ []) h.1
                      (new_comet-HasCurve ids (draws k), tt),
                ))
        ]
      ]
    where
      below :
          (a.at_least_one s.acc && ltb (length s.comets) capacity) ≡ true
          → length s.comets + 1 ≤ capacity
      below e = ground (arith, e)

  -- The fuel of a frame is enough: with more the loop would do the same.
  spawn_enough :
      (fuel k : ℕ) (ids : List Text) (draws : ℕ → Draw Num) (s : Stream Num)
      → capacity ≤ length s.comets + fuel
      → spawn a ns (suc fuel) ids draws k s ≡ spawn a ns fuel ids draws k s
  unfolding spawn
  spawn_enough zero k ids draws s h =
      elim (Bool-cases (a.at_least_one s.acc && ltb (length s.comets) capacity)) [
        | inr off ↦ rw off
        | inl on ↦ absurd (full on)
      ]
    where
      full : (a.at_least_one s.acc && ltb (length s.comets) capacity) ≡ true → ⊥
      full e = ground (arith, e, h)
  spawn_enough (suc fuel) k ids draws s h =
      let more : length (s.comets ++ new_comet a ns ids (draws k) ∷ []) ≡ length s.comets + 1 =
        length-append s.comets (new_comet a ns ids (draws k) ∷ []) in
      spawn-suc (suc fuel) k ids draws s
      ∙ (ap (λ later. round ids later s)
            (spawn_enough fuel (suc k) ids draws (pushed ids (draws k) s) (omega (arith, h, more)))
          ∙ sym (spawn-suc fuel k ids draws s))

  frames-IsStream :
      (cap : Num → Num) (fs : List (Moment Num)) (s : Stream Num)
      → IsStream s.comets
      → IsStream (frames a ns cap fs s).comets
  unfolding frames frame
  frames-IsStream cap [] s h = h
  frames-IsStream cap (f ∷ fs) s h =
      let dt = cap f.delta in
      let begun = record s { acc = a.plus s.acc (a.times f.rate dt) } in
      let spawned = spawn a ns capacity f.ids f.draws 0 begun in
      let ok : IsStream spawned.comets = spawn-IsStream capacity 0 f.ids f.draws begun h in
      let (shorter, kept) = advance-IsStream a dt spawned.comets in
      frames-IsStream cap fs (record spawned { comets = advance a dt spawned.comets })
        (omega (arith, shorter, ok.0), kept ok.1)

  -- If the map has the four nodes that are on each path, then after any frames from an empty scene, with
  -- whatever ids and draws, there are at most 280 particles, each has its whole curve, and the mesh has
  -- 280 instances, those in use being all particles in their order.
  pub stream_drawn :
      (cap : Num → Num) (fs : List (Moment Num)) (acc : Num)
      → let s : Stream Num = frames a ns cap fs (record { acc = acc; comets = [] }) in
        (length s.comets ≤ capacity)
        × All HasCurve s.comets
        × (length (instances capacity s.comets) ≡ capacity)
        × (drawn (instances capacity s.comets) ≡ s.comets)
  stream_drawn cap fs acc =
      let s : Stream Num = frames a ns cap fs (record { acc = acc; comets = [] }) in
      let (short, curves) =
        frames-IsStream cap fs (record { acc = acc; comets = [] }) (omega arith, tt) in
      (short, curves, length-instances capacity s.comets, drawn-instances capacity s.comets short)
