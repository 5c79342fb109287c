-- ===== src/Hooks/TestCache.antt =====
-- A cache as a list of what it holds, the latest first, for the examples.
use native.Mathlib.Decide.{ℕ_discrete}
use mathlib.Core.Path.{subst}
use llmplane.Common.{ℕ, ◌≡◌, ◌⊎◌, inl, inr, refl, sym, ◌∙◌, List, [], ◌∷◌, Option, none, some}
use llmplane.Hooks.Keys.{Scalar, Part, Key}
use llmplane.Hooks.MutationLaws.{StartsWith}
use llmplane.Hooks.Cache.{QueryCache}

Scalar-discrete : Discrete Scalar
Scalar-discrete = hlevel ℕ_discrete

Part-discrete : Discrete Part
Part-discrete = hlevel (ℕ_discrete, Scalar-discrete)

Key-discrete : Discrete Key
Key-discrete = hlevel Part-discrete

starts_with? : (p k : Key) → Dec (StartsWith p k)
starts_with? [] k = yes tt
starts_with? (part ∷ p) [] = no (λ h. h)
starts_with? (part ∷ p) (first ∷ k) = elim (Part-discrete part first) [
  | no n ↦ no (λ h. n h.0)
  | yes y ↦ elim (starts_with? p k) [ no n ↦ no (λ h. n h.1) | yes s ↦ yes (y, s) ]
]

abbrev TestState : Type 0
TestState = List (Key × ℕ)

choose : {P : Type 0} → Dec P → Option ℕ → Option ℕ → Option ℕ
choose (yes y) o rest = o
choose (no n) o rest = rest

pub get_in : TestState → Key → Option ℕ
get_in [] k = none
get_in ((l, d) ∷ s) k = choose (Key-discrete l k) (some d) (get_in s k)

drop_if : {P : Type 0} → Dec P → Key × ℕ → TestState → TestState
drop_if (yes y) entry rest = rest
drop_if (no n) entry rest = entry ∷ rest

pub invalidate_in : TestState → Key → TestState
invalidate_in [] p = []
invalidate_in ((l, d) ∷ s) p = drop_if (starts_with? p l) (l, d) (invalidate_in s p)

pub get_in_nil : (k : Key) (d : ℕ) → ¬ (get_in [] k ≡ some d)
unfolding get_in
get_in_nil k d h = cc

choose_yes : {P : Type 0} (x : Dec P) (o rest : Option ℕ) → P → choose x o rest ≡ o
unfolding choose
choose_yes (yes y) o rest p = refl
choose_yes (no n) o rest p = absurd (n p)

choose_no : {P : Type 0} (x : Dec P) (o rest : Option ℕ) → ¬ P → choose x o rest ≡ rest
unfolding choose
choose_no (yes y) o rest n = absurd (n y)
choose_no (no n) o rest m = refl

choose_cases :
    {P : Type 0} (x : Dec P) (o rest : Option ℕ) (e : ℕ)
    → choose x o rest ≡ some e
    → (P × (o ≡ some e)) ⊎ (¬ P × (rest ≡ some e))
unfolding choose
choose_cases (yes y) o rest e h = inl (y, h)
choose_cases (no n) o rest e h = inr (n, h)

get_in-drop_if :
    {P : Type 0} (x : Dec P) (entry : Key × ℕ) (rest : TestState) (k : Key) (e : ℕ)
    → get_in (drop_if x entry rest) k ≡ some e
    → (P × (get_in rest k ≡ some e)) ⊎ (¬ P × (get_in (entry ∷ rest) k ≡ some e))
unfolding drop_if
get_in-drop_if (yes y) entry rest k e h = inl (y, h)
get_in-drop_if (no n) entry rest k e h = inr (n, h)

pub get_in_self : (s : TestState) (k : Key) (d : ℕ) → get_in ((k, d) ∷ s) k ≡ some d
unfolding get_in
get_in_self s k d = choose_yes (Key-discrete k k) (some d) (get_in s k) refl

pub get_in-cons :
    (s : TestState) (k l : Key) (d e : ℕ)
    → get_in ((k, d) ∷ s) l ≡ some e
    → ((l ≡ k) × (e ≡ d)) ⊎ (get_in s l ≡ some e)
unfolding get_in
get_in-cons s k l d e h = elim (choose_cases (Key-discrete k l) (some d) (get_in s l) e h) [
  | inl (same, taken) ↦ inl (sym same, cc)
  | inr (other, kept) ↦ inr kept
]

pub get_in-invalidate_in :
    (s : TestState) (p k : Key) (e : ℕ)
    → get_in (invalidate_in s p) k ≡ some e
    → (get_in s k ≡ some e) × ¬ StartsWith p k
unfolding get_in invalidate_in
get_in-invalidate_in [] p k e h = cc
get_in-invalidate_in ((l, d) ∷ s) p k e h =
    elim (get_in-drop_if (starts_with? p l) (l, d) (invalidate_in s p) k e h) [
      | inl (starts, found) ↦
          kept (get_in-invalidate_in s p k e found) (λ same n. n (subst (StartsWith p) same starts))
      | inr (not_so, found) ↦
          elim (choose_cases (Key-discrete l k) (some d) (get_in (invalidate_in s p) k) e found) [
            | inl (same, taken) ↦ (
              choose_yes (Key-discrete l k) (some d) (get_in s k) same ∙ taken,
              λ h. not_so (subst (StartsWith p) (sym same) h),
            )
            | inr (other, later) ↦ kept (get_in-invalidate_in s p k e later) (λ same n. other same)
          ]
    ]
  where
    kept :
        (get_in s k ≡ some e) × ¬ StartsWith p k
        → (l ≡ k → ¬ StartsWith p k → ⊥)
        → (get_in ((l, d) ∷ s) k ≡ some e) × ¬ StartsWith p k
    kept (found, n) differ =
        (choose_no (Key-discrete l k) (some d) (get_in s k) (λ same. differ same n) ∙ found, n)

abbrev pub test_cache : QueryCache ℕ
test_cache = record {
  State = TestState;
  get = get_in;
  set = λ s k d. (k, d) ∷ s;
  invalidate = invalidate_in;
  get-set_self = get_in_self;
  get-set = get_in-cons;
  get-invalidate = get_in-invalidate_in;
}
