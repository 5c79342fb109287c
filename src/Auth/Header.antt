-- ===== src/Auth/Header.antt =====
-- The name and the initials that frontend/components/layout/Header.tsx shows. `upper` stands for
-- `toUpperCase`.
use llmplane.Common.{
  ℕ, ◌≤◌, ◌≡◌, refl, false, List, [], ◌∷◌, map, Option, none, some, Text, text, join, length,
  is_empty, if◌then◌else◌, ◌==◌, arith,
}

pub record UserData : Type 0 where
  pub id : Text
  pub email : Text
  pub name : Option Text
  pub avatar_url : Option Text
  pub provider : Text

-- `s.split(c)`.
unfoldable pub split_at : ℕ → Text → List Text
split_at c [] = [] ∷ []
split_at c (d ∷ s) =
    let rest = split_at c s in
    if d == c
    then [] ∷ rest
    else elim rest [ [] ↦ (d ∷ []) ∷ [] | part ∷ parts ↦ (d ∷ part) ∷ parts ]

abbrev first_of : List Text → Text
first_of [] = []
first_of (part ∷ parts) = part

abbrev non_empty : Option Text → Option Text
non_empty none = none
non_empty (some s) = if is_empty s then none else some s

unfoldable pub or_else : Option Text → Text → Text
or_else none s = s
or_else (some t) s = t

-- `user?.name || user?.email?.split("@")[0] || "User"`.
unfoldable pub display_name : Option UserData → Text
unfolding split_at or_else
display_name none = text "User"
display_name (some u) =
    or_else (non_empty u.name)
      (or_else (non_empty (some (first_of (split_at b'@' u.email)))) (text "User"))

-- `n[0]`, which `join` prints as nothing where there is none.
abbrev initial_of : Text → Text
initial_of [] = []
initial_of (c ∷ s) = c ∷ []

-- `s.slice(0, 2)`.
abbrev first_two : Text → Text
first_two [] = []
first_two (c ∷ []) = c ∷ []
first_two (c ∷ d ∷ s) = c ∷ d ∷ []

unfoldable pub initials : (Text → Text) → Text → Text
unfolding split_at join
initials upper name = first_two (upper (join [] (map initial_of (split_at b' ' name))))

non_empty-or_else :
    (o : Option Text) (s : Text) → is_empty s ≡ false → is_empty (or_else (non_empty o) s) ≡ false
unfolding or_else
non_empty-or_else none s h = h
non_empty-or_else (some []) s h = h
non_empty-or_else (some (c ∷ t)) s h = refl

-- The header never shows an empty name, and never more than two initials.
header_is_filled :
    (user : Option UserData) (upper : Text → Text)
    → (is_empty (display_name user) ≡ false) × (length (initials upper (display_name user)) ≤ 2)
unfolding display_name initials
header_is_filled user upper =
    (named user, short (upper (join [] (map initial_of (split_at b' ' (display_name user))))))
  where
    named : (user : Option UserData) → is_empty (display_name user) ≡ false
    named none = refl
    named (some u) =
        non_empty-or_else u.name
          (or_else (non_empty (some (first_of (split_at b'@' u.email)))) (text "User"))
          (non_empty-or_else (some (first_of (split_at b'@' u.email))) (text "User") refl)

    short : (s : Text) → length (first_two s) ≤ 2
    short [] = omega arith
    short (c ∷ []) = omega arith
    short (c ∷ d ∷ s) = omega arith
