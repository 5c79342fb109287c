-- ===== src/Display/DisplayLaws.antt =====
-- What the tones, the waterfall and the traffic window guarantee.
use llmplane.Common.{
  ℕ, ◌+◌, ◌≤◌, ◌≡◌, ◌↔◌, ◌⊎◌, ◌∙◌, sym, inl, inr, refl, ap, max, Bool, true, false, List, [], ◌∷◌,
  ◌++◌, some, text_methods, keep_if, length, All, append_assoc, append-nil, if◌then◌else◌,
  Bool-cases, arith,
}
use llmplane.Api.Url.{lower_text}
use llmplane.Topology.Status.{
  DeploymentStatus, pending, downloading, running, stopped, error, deleting, status_text,
}
use llmplane.Display.Status.{
  success, danger, neutral, tone_by_status, tone_for, transient, is_transient,
}
use llmplane.Display.Waterfall.{WaterfallSpan, Trace, place, total_of, others_ms, build_waterfall}
use llmplane.Display.Traffic.{Traffic, quiet, Event, completes, ticks, is_recent, tick, step, run}

-- A status of a deployment reads as work in flight exactly if it waits or downloads; a running one is
-- a success, a failed one a danger; and deletion, which is work in flight too, reads as neutral.
tone_for-deployment :
    (s : DeploymentStatus)
    → ((is_transient (some (status_text s)) ≡ true) ↔ ((s ≡ pending) ⊎ (s ≡ downloading)))
      × ((tone_for (some (status_text s)) ≡ success) ↔ (s ≡ running))
      × ((tone_for (some (status_text s)) ≡ danger) ↔ (s ≡ error))
      × ((tone_for (some (status_text s)) ≡ neutral) ↔ ((s ≡ stopped) ⊎ (s ≡ deleting)))
unfolding is_transient tone_for tone_by_status transient status_text lower_text text_methods
tone_for-deployment pending = ground arith
tone_for-deployment downloading = ground arith
tone_for-deployment running = ground arith
tone_for-deployment stopped = ground arith
tone_for-deployment error = ground arith
tone_for-deployment deleting = ground arith

-- The spans begin at `from`, each where the one before it ends, and end at `to`.
abbrev pub Contiguous : ℕ → ℕ → List WaterfallSpan → Type 0
Contiguous from to [] = from ≡ to
Contiguous from to (s ∷ spans) = (s.start_ms ≡ from) × Contiguous (from + s.duration_ms) to spans

module _ (quarter six_percent : ℕ → ℕ) where
  -- Whatever the roundings give, the spans of a trace follow each other without gap or overlap from 0
  -- to the trace's total, or to one millisecond after the five stages besides the model if these take
  -- longer.
  build_waterfall-Contiguous :
      (t : Trace)
      → Contiguous 0
          (max (total_of quarter six_percent t) (others_ms quarter six_percent t + 1))
          (build_waterfall quarter six_percent t)
  unfolding build_waterfall place others_ms
  build_waterfall-Contiguous t = (refl, (refl, (refl, (refl, (refl, (refl, omega arith))))))

abbrev pub arrivals : List Event → List ℕ
arrivals [] = []
arrivals (completes t ∷ es) = t ∷ arrivals es
arrivals (ticks t ∷ es) = arrivals es

abbrev pub Before : ℕ → Event → Type 0
Before now (completes t) = Unit
Before now (ticks t) = t ≤ now

is_recent-later : (t now x : ℕ) → t ≤ now → is_recent t x ≡ false → is_recent now x ≡ false
unfolding is_recent
is_recent-later t now x h k = ground arith

keep-keep :
    (t now : ℕ) (xs : List ℕ)
    → t ≤ now
    → keep_if (is_recent now) (keep_if (is_recent t) xs) ≡ keep_if (is_recent now) xs
keep-keep t now [] h = refl
keep-keep t now (x ∷ xs) h = elim (Bool-cases (is_recent t x)) [
  | inl e ↦ rw (e) (ap (λ ys. if is_recent now x then x ∷ ys else ys) (keep-keep t now xs h))
  | inr e ↦ rw (e, is_recent-later t now x h e) (keep-keep t now xs h)
]

keep_if-append :
    (p : ℕ → Bool) (xs ys : List ℕ) → keep_if p (xs ++ ys) ≡ keep_if p xs ++ keep_if p ys
keep_if-append p [] ys = refl
keep_if-append p (x ∷ xs) ys = ground (arith, keep_if-append p xs ys)

run-recent :
    (s : Traffic) (es : List Event) (now : ℕ)
    → All (Before now) es
    → keep_if (is_recent now) (run s es).real_times
      ≡ keep_if (is_recent now) (s.real_times ++ arrivals es)
unfolding run step tick
run-recent s [] now h = ap (keep_if (is_recent now)) (sym (append-nil s.real_times))
run-recent s (completes t ∷ es) now (b, h) =
    run-recent (step s (completes t)) es now h
    ∙ ap (keep_if (is_recent now)) (append_assoc s.real_times (t ∷ []) (arrivals es))
run-recent s (ticks t ∷ es) now (b, h) =
    run-recent (step s (ticks t)) es now h
    ∙ keep_if-append (is_recent now) (keep_if (is_recent t) s.real_times) (arrivals es)
    ∙ ap (λ xs. xs ++ keep_if (is_recent now) (arrivals es)) (keep-keep t now s.real_times b)
    ∙ sym (keep_if-append (is_recent now) s.real_times (arrivals es))

-- After any run whose ticks come before, the tick at `now` holds exactly the completions of the last
-- five seconds, although earlier ticks forget older ones; and the traffic counts as simulated if these
-- are none or a single one.
pub run-window :
    (es : List Event) (now : ℕ)
    → All (Before now) es
    → ((tick now (run quiet es)).real_times ≡ keep_if (is_recent now) (arrivals es))
      × (((tick now (run quiet es)).simulated ≡ true)
          ↔ (length (keep_if (is_recent now) (arrivals es)) ≤ 1))
unfolding tick quiet
run-window es now h = let e = run-recent quiet es now h in (e, ground (arith, e))
