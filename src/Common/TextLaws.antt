-- ===== src/Common/TextLaws.antt =====
-- What the methods of text do: stripping, prefixes and suffixes.
use Prim.Native.Nat.{ℕ}
use mathlib.Core.Path.{◌≡◌, refl, ap}
use mathlib.Core.Logic.{◌⊎◌, inl, inr}
use mathlib.Core.Bool.{Bool, true, ◌||◌}
use mathlib.Core.List.{[], ◌∷◌, ◌++◌}
use native.Mathlib.Omega.{arith}
use llmplane.Common.Strings.{Text, text_eq, text_eq→eq, text_eq_refl, ends_with, strip_end}

pub or-eq-true : (a b : Bool) → (a || b) ≡ true → (a ≡ true) ⊎ (b ≡ true)
or-eq-true a b h = ground arith

pub ends_with_split : (s p : Text) → ends_with s p ≡ true → (b : Text) × (s ≡ b ++ p)
unfolding ends_with
ends_with_split [] p h = ([], text_eq→eq [] p h)
ends_with_split (c ∷ s) p h = elim (or-eq-true (text_eq (c ∷ s) p) (ends_with s p) h) [
  | inl e ↦ ([], text_eq→eq (c ∷ s) p e)
  | inr e ↦ let (b, q) = ends_with_split s p e in (c ∷ b, ap (λ t. c ∷ t) q)
]

pub ends_with-append : (b p : Text) → ends_with (b ++ p) p ≡ true
unfolding ends_with
ends_with-append [] [] = refl
ends_with-append [] (d ∷ p) = rw (text_eq_refl (d ∷ p))
ends_with-append (c ∷ b) p = ground (arith, ends_with-append b p)

-- Text whose end is kept stays as it is behind any other text.
pub strip_end-append :
    (p : ℕ → Bool) (b : Text) (c : ℕ) (s : Text)
    → strip_end p (c ∷ s) ≡ c ∷ s
    → strip_end p (b ++ c ∷ s) ≡ b ++ c ∷ s
unfolding strip_end
strip_end-append p [] c s h = h
strip_end-append p (d ∷ []) c s h = rw h
strip_end-append p (d ∷ e ∷ b) c s h = rw (strip_end-append p (e ∷ b) c s h)
