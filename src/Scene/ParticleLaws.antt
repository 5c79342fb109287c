-- ===== src/Scene/ParticleLaws.antt =====
-- The number of moving points is bounded, the loop that adds them ends by its own test, and each is
-- drawn between two nodes of the map.
use llmplane.Common.{
  ℕ, zero, suc, ◌+◌, ◌≤◌, ◌≡◌, refl, ◌⊎◌, sym, ap, ◌∙◌, true, false, ◌&&◌, List, [], ◌∷◌, ◌++◌,
  Text, length, length-append, is_empty, if◌then◌else◌, ltb, arith,
}
use llmplane.Scene.Particles.{
  Particle, Arithmetic, Draw, Flow, Tick, capacity, new_particle, spawn, advance, frame, frames,
}

-- The test of the loop fails, or its `break` is reached.
module _ {Num : Type 0} (a : Arithmetic Num) (ids : List Text) where
  abbrev pub IsStopped : Flow Num → Type 0
  IsStopped s =
      ((a.at_least_one s.acc && ltb (length s.particles) capacity) ≡ false) ⊎ (is_empty ids ≡ true)

module _ {Num : Type 0} (a : Arithmetic Num) (ids : List Text) (draws : ℕ → Draw Num) where
  abbrev pushed : ℕ → Flow Num → Flow Num
  pushed k s = record {
    acc = a.minus_one s.acc;
    particles = s.particles ++ new_particle a ids (draws k) ∷ [];
  }

  -- One round, with what the later rounds make of the particle that it adds.
  round : Flow Num → Flow Num → Flow Num
  round later s =
      if a.at_least_one s.acc && ltb (length s.particles) capacity
      then (if is_empty ids then record s { acc = a.minus_one s.acc } else later)
      else s

  spawn-suc :
      (fuel k : ℕ) (s : Flow Num)
      → spawn a (suc fuel) ids draws k s ≡ round (spawn a fuel ids draws (suc k) (pushed k s)) s
  unfolding spawn round
  spawn-suc fuel k s = refl

  length-pushed : (k : ℕ) (s : Flow Num) → length (pushed k s).particles ≡ length s.particles + 1
  length-pushed k s = length-append s.particles (new_particle a ids (draws k) ∷ [])

  spawn_more :
      (fuel more k : ℕ) (s : Flow Num)
      → capacity ≤ length s.particles + fuel
      → spawn a (fuel + more) ids draws k s ≡ spawn a fuel ids draws k s
  unfolding spawn
  spawn_more zero zero k s h = refl
  spawn_more zero (suc more) k s h = ground (arith, h)
  spawn_more (suc fuel) more k s h =
      let e : suc fuel + more ≡ suc (fuel + more) = omega arith in
      let ih = spawn_more fuel more (suc k) (pushed k s) (omega (arith, h, length-pushed k s)) in
      ap (λ n. spawn a n ids draws k s) e
      ∙ spawn-suc (fuel + more) k s
      ∙ ap (λ later. round later s) ih
      ∙ sym (spawn-suc fuel k s)

  spawn-length :
      (fuel k : ℕ) (s : Flow Num)
      → length s.particles ≤ capacity
      → length (spawn a fuel ids draws k s).particles ≤ capacity
  unfolding spawn
  spawn-length zero k s h = h
  spawn-length (suc fuel) k s h =
      let n = length-pushed k s in ground (arith, h, n, spawn-length fuel (suc k) (pushed k s))

  spawn_stops :
      (fuel k : ℕ) (s : Flow Num)
      → capacity ≤ length s.particles + fuel
      → IsStopped a ids (spawn a fuel ids draws k s)
  unfolding spawn
  spawn_stops zero k s h = ground (arith, h)
  spawn_stops (suc fuel) k s h =
      let n = length-pushed k s in
      let ih = spawn_stops fuel (suc k) (pushed k s) (omega (arith, h, n)) in ground (arith, ih)

  -- The loop that adds points ends, and as the source ends it: after as many rounds as the capacity it
  -- has left by its own test or by its `break`, and more rounds would change nothing.
  spawn_enough :
      (more k : ℕ) (s : Flow Num)
      → IsStopped a ids (spawn a capacity ids draws k s)
        × (spawn a (capacity + more) ids draws k s ≡ spawn a capacity ids draws k s)
  spawn_enough more k s =
      (spawn_stops capacity k s (omega arith), spawn_more capacity more k s (omega arith))

module _ {Num : Type 0} (a : Arithmetic Num) where
  advance-length : (dt : Num) (ps : List (Particle Num)) → length (advance a dt ps) ≤ length ps
  unfolding advance
  advance-length dt [] = omega arith
  advance-length dt (p ∷ ps) = ground (arith, advance-length dt ps)

  -- However many times the map is drawn, and at whatever rates, there are never more moving points than
  -- the capacity.
  frames-length :
      (fs : List (Tick Num)) (s : Flow Num)
      → length s.particles ≤ capacity
      → length (frames a fs s).particles ≤ capacity
  unfolding frames frame
  frames-length [] s h = h
  frames-length (f ∷ fs) s h =
      let start = record s { acc = a.plus s.acc (a.times f.rate f.dt) } in
      let spawned = spawn a capacity f.ids f.draws 0 start in
      let m = spawn-length a f.ids f.draws capacity 0 start h in
      frames-length fs (frame a f.rate f.dt f.ids f.draws s)
        (omega (arith, m, advance-length f.dt spawned.particles))
