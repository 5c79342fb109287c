-- ===== src/Scene/PickLaws.antt =====
-- The node that is picked is the nearest, and the ends of a highlighted edge are not dimmed.
use llmplane.Common.{
  ◌↔◌, ◌⊎◌, ◌≡◌, refl, inl, inr, ◌∙◌, Bool, true, false, ◌&&◌, ◌||◌, List, [], ◌∷◌, ◌++◌, Option,
  none, some, Text, text_eq, text_eq_refl, text_eq_iff, any, All, Has, if◌then◌else◌, Bool-cases,
  arith,
}
use llmplane.Topology.Types.{InfraNode, InfraEdge}
use llmplane.Scene.Pick.{pick_from, pick, neighbours, neighbour_set, is_connected, is_dim}

pub record IsStrict {D : Type 0} (less : D → D → Bool) : Type 0 where
  pub irrefl : (a : D) → less a a ≡ false
  pub trans : (a b c : D) → less a b ≡ true → less b c ≡ true → less a c ≡ true

module _ {Num D : Type 0} (less : D → D → Bool) (distance : InfraNode Num → D) where
  -- No node is nearer than `d`.
  abbrev pub NoneNearer : D → List (InfraNode Num) → Type 0
  NoneNearer d ns = All (λ n. less (distance n) d ≡ false) ns

  -- The nearest node within the radius.
  abbrev pub IsNearest : D → List (InfraNode Num) → Option Text → Type 0
  IsNearest radius ns none = NoneNearer radius ns
  IsNearest radius ns (some id) =
      (n : InfraNode Num) × Has n ns
      × (n.id ≡ id)
      × (less (distance n) radius ≡ true)
      × NoneNearer (distance n) ns

  abbrev Found : D → List (InfraNode Num) → Option Text → Type 0
  Found d ns result =
      (n : InfraNode Num) × Has n ns
      × (result ≡ some n.id)
      × (less (distance n) d ≡ true)
      × NoneNearer (distance n) ns

  not_nearer : IsStrict less → (a b c : D) → less a b ≡ true → less c b ≡ false → less c a ≡ false
  not_nearer o a b c h k = ground (arith, o.trans c a b)

  pick_from-Found :
      IsStrict less
      → (best : Option Text) (d : D) (ns : List (InfraNode Num))
      → ((pick_from less distance best d ns ≡ best) × NoneNearer d ns)
        ⊎ Found d ns (pick_from less distance best d ns)
  unfolding pick_from
  pick_from-Found o best d [] = inl (refl, tt)
  pick_from-Found o best d (n ∷ ns) =
      choose (less (distance n) d) refl (pick_from-Found o (some n.id) (distance n) ns)
        (pick_from-Found o best d ns)
    where
      nearer :
          less (distance n) d ≡ true
          → ((pick_from less distance (some n.id) (distance n) ns ≡ some n.id)
              × NoneNearer (distance n) ns)
            ⊎ Found (distance n) ns (pick_from less distance (some n.id) (distance n) ns)
          → Found d (n ∷ ns) (pick_from less distance (some n.id) (distance n) ns)
      nearer e (inl (r, h)) = (n, inl refl, r, e, (o.irrefl (distance n), h))
      nearer e (inr (m, k, r, l, h)) = (
        m,
        inr k,
        r,
        o.trans (distance m) (distance n) d l e,
        (not_nearer o (distance m) (distance n) (distance n) l (o.irrefl (distance n)), h),
      )

      further :
          less (distance n) d ≡ false
          → ((pick_from less distance best d ns ≡ best) × NoneNearer d ns)
            ⊎ Found d ns (pick_from less distance best d ns)
          → ((pick_from less distance best d ns ≡ best) × NoneNearer d (n ∷ ns))
            ⊎ Found d (n ∷ ns) (pick_from less distance best d ns)
      further e (inl (r, h)) = inl (r, (e, h))
      further e (inr (m, k, r, l, h)) =
          inr (m, inr k, r, l, (not_nearer o (distance m) d (distance n) l e, h))

      choose :
          (b : Bool)
          → less (distance n) d ≡ b
          → ((pick_from less distance (some n.id) (distance n) ns ≡ some n.id)
              × NoneNearer (distance n) ns)
            ⊎ Found (distance n) ns (pick_from less distance (some n.id) (distance n) ns)
          → ((pick_from less distance best d ns ≡ best) × NoneNearer d ns)
            ⊎ Found d ns (pick_from less distance best d ns)
          → (((if b
                  then pick_from less distance (some n.id) (distance n) ns
                  else pick_from less distance best d ns)
                ≡ best)
              × NoneNearer d (n ∷ ns))
            ⊎ Found d (n ∷ ns) (
                if b
                then pick_from less distance (some n.id) (distance n) ns
                else pick_from less distance best d ns)
      choose true e x y = inr (nearer e x)
      choose false e x y = further e y

  -- A click or a move picks the node nearest to it, among those nearer than the radius, or nothing if
  -- no node is nearer than that.
  pub pick-IsNearest :
      IsStrict less
      → (radius : D) (ns : List (InfraNode Num))
      → IsNearest radius ns (pick less distance radius ns)
  unfolding pick
  pick-IsNearest o radius ns = elim (pick_from-Found o none radius ns) [
    | inl (r, h) ↦ rw r h
    | inr (n, k, r, l, h) ↦ rw r (n, k, refl, l, h)
  ]

any-append :
    {A : Type 0} (p : A → Bool) (xs ys : List A) → any p (xs ++ ys) ≡ (any p xs || any p ys)
any-append p [] ys = refl
any-append p (x ∷ xs) ys = ground (arith, any-append p xs ys)

any-three :
    {A : Type 0} (p : A → Bool) (xs ys zs : List A)
    → any p (xs ++ (ys ++ zs)) ≡ (any p xs || (any p ys || any p zs))
any-three p xs ys zs = ground (arith, any-append p xs (ys ++ zs), any-append p ys zs)

module _ (p : Text → Bool) (focus : Text) where
  any-neighbours-here :
      (e : InfraEdge) (es : List InfraEdge)
      → ((text_eq e.from focus && p e.to) || (text_eq e.to focus && p e.from)) ≡ true
      → any p (neighbours focus (e ∷ es)) ≡ true
  unfolding neighbours
  any-neighbours-here e es h =
      let out = if text_eq e.from focus then e.to ∷ [] else [] in
      let into = if text_eq e.to focus then e.from ∷ [] else [] in
      any-three p out into (neighbours focus es) ∙ ground (arith, h)

  any-neighbours-later :
      (e : InfraEdge) (es : List InfraEdge)
      → any p (neighbours focus es) ≡ true
      → any p (neighbours focus (e ∷ es)) ≡ true
  unfolding neighbours
  any-neighbours-later e es h =
      let out = if text_eq e.from focus then e.to ∷ [] else [] in
      let into = if text_eq e.to focus then e.from ∷ [] else [] in
      any-three p out into (neighbours focus es) ∙ ground (arith, h)

  any-neighbours :
      (e : InfraEdge) (es : List InfraEdge)
      → Has e es
      → ((text_eq e.from focus && p e.to) || (text_eq e.to focus && p e.from)) ≡ true
      → any p (neighbours focus es) ≡ true
  any-neighbours e [] h k = elim h [ ]
  any-neighbours e (f ∷ es) (inl h) k = any-neighbours-here f es (ground (arith, h, k))
  any-neighbours e (f ∷ es) (inr h) k = any-neighbours-later f es (any-neighbours e es h k)

abbrev pub Joins : Text → List InfraEdge → Text → Type 0
Joins focus es id =
    (e : InfraEdge) × Has e es
    × (is_connected (some focus) e ≡ true)
    × ((e.from ≡ id) ⊎ (e.to ≡ id))

neighbours-Joins :
    (focus id : Text) (es : List InfraEdge)
    → any (text_eq id) (neighbours focus es) ≡ true
    → Joins focus es id
unfolding is_connected neighbours
neighbours-Joins focus id [] h = cc
neighbours-Joins focus id (e ∷ es) h =
    let out = if text_eq e.from focus then e.to ∷ [] else [] in
    let into = if text_eq e.to focus then e.from ∷ [] else [] in
    let split = any-three (text_eq id) out into (neighbours focus es) in
    elim (Bool-cases (any (text_eq id) (neighbours focus es))) [
      | inl k ↦ later (neighbours-Joins focus id es k)
      | inr k ↦ elim (Bool-cases (text_eq e.from focus && text_eq id e.to)) [
        | inl l ↦ (e, inl refl, ground (arith, l), inr (ground (arith, l, text_eq_iff id e.to)))
        | inr l ↦
            let both : (text_eq e.to focus && text_eq id e.from) ≡ true =
              ground (arith, split, h, k, l) in
            (e, inl refl, ground (arith, both), inl (ground (arith, both, text_eq_iff id e.from)))
      ]
    ]
  where
    later : Joins focus es id → Joins focus (e ∷ es) id
    later (f, a, b, c) = (f, inr a, b, c)

is_connected-is_dim :
    (focus : Option Text) (es : List InfraEdge) (e : InfraEdge)
    → Has e es
    → is_connected focus e ≡ true
    → (is_dim focus es e.from ≡ false) × (is_dim focus es e.to ≡ false)
unfolding is_connected is_dim neighbour_set
is_connected-is_dim none es e h k = (refl, refl)
is_connected-is_dim (some focus) es e h k = (
  ground (
    arith,
    any-neighbours (text_eq e.from) focus e es h,
    text_eq_refl e.from,
    text_eq_iff e.from focus,
    k,
  ),
  ground (
    arith,
    any-neighbours (text_eq e.to) focus e es h,
    text_eq_refl e.to,
    text_eq_iff e.to focus,
    k,
  ),
)

-- With a focus, a node keeps its full opacity exactly when it is the focus itself or an end of a
-- highlighted edge: some edge of the graph with the focus at one end.
is_dim_iff :
    (focus id : Text) (es : List InfraEdge)
    → (is_dim (some focus) es id ≡ false) ↔ ((id ≡ focus) ⊎ Joins focus es id)
unfolding is_dim neighbour_set
is_dim_iff focus id es = (shown, lit)
  where
    shown : is_dim (some focus) es id ≡ false → (id ≡ focus) ⊎ Joins focus es id
    shown h = elim (Bool-cases (text_eq id focus)) [
      | inl e ↦ inl ((text_eq_iff id focus).0 e)
      | inr e ↦ inr (neighbours-Joins focus id es (ground (arith, h, e)))
    ]

    lit : (id ≡ focus) ⊎ Joins focus es id → is_dim (some focus) es id ≡ false
    lit (inl e) = ground (arith, e, text_eq_refl focus)
    lit (inr (e, h, k, inl l)) = ground (arith, l, (is_connected-is_dim (some focus) es e h k).0)
    lit (inr (e, h, k, inr l)) = ground (arith, l, (is_connected-is_dim (some focus) es e h k).1)
