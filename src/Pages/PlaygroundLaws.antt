-- ===== src/Pages/PlaygroundLaws.antt =====
-- The selection of models holds each model at most once, by the parity of the presses.
use llmplane.Common.{
  bit, ℕ, ◌+◌, ◌≡◌, refl, Bool, false, not, List, [], ◌∷◌, ◌++◌, Option, none, some, Text, text_eq,
  text_eq_iff, keep_if, if◌then◌else◌, ◌==◌, arith,
}
use llmplane.Pages.Playground.{first_selection, includes, toggle, toggle_all}

abbrev pub count : Text → List Text → ℕ
count m [] = 0
count m (x ∷ xs) = (if text_eq x m then 1 else 0) + count m xs

-- Whether an odd number of the presses are of the model, if `b` is false.
abbrev pub flips : Text → List Text → Bool → Bool
flips m [] b = b
flips m (x ∷ xs) b = flips m xs (if text_eq x m then not b else b)

includes-count : (m : Text) (xs : List Text) → includes m xs ≡ not (count m xs == 0)
includes-count m [] = ground arith
includes-count m (x ∷ xs) = ground (arith, includes-count m xs)

count-append :
    (m x : Text) (xs : List Text) → count m (xs ++ x ∷ []) ≡ count m xs + bit (text_eq x m)
count-append m x [] = ground arith
count-append m x (y ∷ xs) = ground (arith, count-append m x xs)

count-filter :
    (m x : Text) (xs : List Text)
    → count m (keep_if (λ y. not (text_eq y x)) xs) ≡ (if text_eq x m then 0 else count m xs)
count-filter m x [] = ground arith
count-filter m x (y ∷ xs) =
    ground (arith, text_eq_iff y x, text_eq_iff x m, text_eq_iff y m, count-filter m x xs)

count-toggle :
    (m x : Text) (xs : List Text) (b : Bool)
    → count m xs ≡ bit b
    → count m (toggle x xs) ≡ bit (if text_eq x m then not b else b)
unfolding toggle
count-toggle m x xs b h =
    ground
      (arith, h, text_eq_iff x m, includes-count x xs, count-append m x xs, count-filter m x xs)

toggles :
    (m : Text) (ms xs : List Text) (b : Bool)
    → count m xs ≡ bit b
    → count m (toggle_all ms xs) ≡ bit (flips m ms b)
unfolding toggle_all
toggles m [] xs b h = h
toggles m (x ∷ ms) xs b h =
    toggles m ms (toggle x xs) (if text_eq x m then not b else b) (count-toggle m x xs b h)

-- After any presses, a model stands in the selection once or not at all: once if it was the one that the
-- address names and was pressed an even number of times, or if it was not and was pressed an
-- odd number of times.
pub count-toggle_all :
    (m : Text) (ms : List Text) (address : Option Text)
    → count m (toggle_all ms (first_selection address))
      ≡ bit (flips m ms (includes m (first_selection address)))
unfolding first_selection
count-toggle_all m ms none = toggles m ms [] false refl
count-toggle_all m ms (some a) =
    let s = first_selection (some a) in toggles m ms s (includes m s) (ground arith)
