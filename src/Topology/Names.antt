-- ===== src/Topology/Names.antt =====
-- The ids on the map are distinct whenever those of the rows are.
use llmplane.Common.{
  ◌≡◌, refl, sym, ap, ◌∙◌, ◌≢◌, ◌⊎◌, inl, inr, Bool, true, not, ◌&&◌, List, [], ◌∷◌, ◌++◌, map,
  Option, Text, Has, Has-append_cases, Has-map, Bool-cases, keep_if, arith,
}
use mathlib.Core.Path.{subst}
use llmplane.Topology.Types.{Numbers, ProviderLike, DeploymentLike, DashboardSummaryLike}
use llmplane.Topology.Build.{
  is_local, is_cloud, is_covered, is_fallback, dep_id, prov_id, build_topology, backbone,
}
use llmplane.Topology.Graph.{node_ids, node_ids-nodes}
use llmplane.Topology.Coverage.{row_ids, model_nodes-row_ids}

module _ {A : Type 0} where
  abbrev pub Distinct : List A → Type 0
  Distinct [] = Unit
  Distinct (x ∷ xs) = (Has x xs → ⊥) × Distinct xs

  Distinct-append :
      (xs ys : List A)
      → Distinct xs
      → Distinct ys
      → ((a : A) → Has a xs → Has a ys → ⊥)
      → Distinct (xs ++ ys)
  Distinct-append [] ys h k apart = k
  Distinct-append (x ∷ xs) ys (n, h) k apart = (
    λ m. elim (Has-append_cases x xs ys m) [ inl p ↦ n p | inr p ↦ apart x (inl refl) p ],
    Distinct-append xs ys h k (λ a p q. apart a (inr p) q),
  )

  Has-of_keep_if :
      (p : A → Bool) (a : A) (xs : List A) → Has a (keep_if p xs) → Has a xs × (p a ≡ true)
  Has-of_keep_if p a [] h = elim h [ ]
  Has-of_keep_if p a (x ∷ xs) h = elim (Bool-cases (p x)) [
    | inl e ↦ kept e (Has-of_keep_if p a xs) (rw e at h)
    | inr e ↦ let (m, q) = Has-of_keep_if p a xs (rw e at h) in (inr m, q)
  ]
    where
      kept :
          p x ≡ true
          → (Has a (keep_if p xs) → Has a xs × (p a ≡ true))
          → Has a (x ∷ keep_if p xs)
          → Has a (x ∷ xs) × (p a ≡ true)
      kept e ih (inl s) = (inl s, rw s e)
      kept e ih (inr m) = let (k, q) = ih m in (inr k, q)

module _ {A : Type 0} (f : A → Text) where
  Has-of_map : (b : Text) (xs : List A) → Has b (map f xs) → (a : A) × Has a xs × (b ≡ f a)
  Has-of_map b [] h = elim h [ ]
  Has-of_map b (x ∷ xs) (inl e) = (x, inl refl, e)
  Has-of_map b (x ∷ xs) (inr h) = let (a, m, e) = Has-of_map b xs h in (a, inr m, e)

  -- Two rows of a list with distinct keys that have one key are the same row.
  same_row : (xs : List A) (a b : A) → Distinct (map f xs) → Has a xs → Has b xs → f a ≡ f b → a ≡ b
  same_row [] a b d h k e = elim h [ ]
  same_row (x ∷ xs) a b (n, d) (inl p) (inl q) e = p ∙ sym q
  same_row (x ∷ xs) a b (n, d) (inl p) (inr k) e =
      absurd (n (subst (λ t. Has t (map f xs)) (sym (ap f (sym p) ∙ e)) (Has-map f b xs k)))
  same_row (x ∷ xs) a b (n, d) (inr h) (inl q) e =
      absurd (n (subst (λ t. Has t (map f xs)) (sym (ap f (sym q) ∙ sym e)) (Has-map f a xs h)))
  same_row (x ∷ xs) a b (n, d) (inr h) (inr k) e = same_row xs a b d h k e

  Distinct-keep_if :
      (p : A → Bool) (xs : List A) → Distinct (map f xs) → Distinct (map f (keep_if p xs))
  Distinct-keep_if p [] d = tt
  Distinct-keep_if p (x ∷ xs) (n, d) = elim (Bool-cases (p x)) [
    | inl e ↦ rw e (
      λ h.
          let (a, m, q) = Has-of_map (f x) (keep_if p xs) h in
          n (subst (λ b. Has b (map f xs)) (sym q) (Has-map f a xs (Has-of_keep_if p a xs m).0)),
      Distinct-keep_if p xs d,
    )
    | inr e ↦ rw e (Distinct-keep_if p xs d)
  ]

kinds_apart : (s t : Text) → dep_id s ≢ prov_id t
kinds_apart s t e = ground arith

not_both : (l c : Bool) → not l ≡ true → (l && not c) ≡ true → ⊥
not_both l c h k = ground arith

-- Keys that an injective function renames stay distinct.
Distinct-rename :
    {A : Type 0} (key : A → Text) (g : Text → Text)
    → ((s t : Text) → g s ≡ g t → s ≡ t)
    → (xs : List A) → Distinct (map key xs)
    → Distinct (map (λ a. g (key a)) xs)
Distinct-rename key g inj [] d = tt
Distinct-rename key g inj (x ∷ xs) (n, d) = (
  λ h.
      let (a, m, e) = Has-of_map (λ a. g (key a)) (g (key x)) xs h in
      n (subst (λ b. Has b (map key xs)) (sym (inj (key x) (key a) e)) (Has-map key a xs m)),
  Distinct-rename key g inj xs d,
)

module _ {Num : Type 0} where
  provs-Distinct :
      (f : ProviderLike Num → Bool) (ps : List (ProviderLike Num))
      → Distinct (map (λ p. p.id) ps)
      → Distinct (map (λ p. prov_id p.id) (keep_if f ps))
  provs-Distinct f ps h =
      Distinct-rename (λ p. p.id) prov_id (λ s t e. cc) (keep_if f ps)
        (Distinct-keep_if (λ p. p.id) f ps h)

  -- A provider is not both in the cloud and local.
  cloud_apart :
      (ps : List (ProviderLike Num)) (ds : List (DeploymentLike Num)) (a : Text)
      → Distinct (map (λ p. p.id) ps)
      → Has a (map (λ p. prov_id p.id) (keep_if is_cloud ps))
      → Has a (map (λ p. prov_id p.id) (keep_if (is_fallback ds) ps))
      → ⊥
  cloud_apart ps ds a h m k =
      let (p, mp, e) = Has-of_map _ a (keep_if is_cloud ps) m in
      let (q, mq, r) = Has-of_map _ a (keep_if (is_fallback ds) ps) k in
      let (hp, cp) = Has-of_keep_if is_cloud p ps mp in
      let (hq, cq) = Has-of_keep_if (is_fallback ds) q ps mq in
      let ids : p.id ≡ q.id = cc (sym e ∙ r) in
      let same : p ≡ q = same_row (λ p. p.id) ps p q h hp hq ids in
      not_both (is_local q.provider_type) (is_covered ds q) (rw same at cp) cq

  row_ids-Distinct :
      (ps : List (ProviderLike Num)) (ds : List (DeploymentLike Num))
      → Distinct (map (λ p. p.id) ps)
      → Distinct (map (λ d. d.id) ds)
      → Distinct (row_ids ps ds)
  row_ids-Distinct ps ds hp hd =
      let deps = map (λ (d : DeploymentLike Num). dep_id d.id) ds in
      let covers = map (λ (p : ProviderLike Num). prov_id p.id) (keep_if (is_fallback ds) ps) in
      Distinct-append (map (λ p. prov_id p.id) (keep_if is_cloud ps)) (deps ++ covers)
        (provs-Distinct is_cloud ps hp)
        (Distinct-append deps covers (Distinct-rename (λ d. d.id) dep_id (λ s t e. cc) ds hd)
          (provs-Distinct (is_fallback ds) ps hp)
          (λ a m k.
            let (d, _, e) = Has-of_map _ a ds m in
            let (p, _, q) = Has-of_map _ a (keep_if (is_fallback ds) ps) k in
            kinds_apart d.id p.id (sym e ∙ q)))
        (λ a m k. elim (Has-append_cases a deps covers k) [
          | inl k ↦
              let (p, _, e) = Has-of_map _ a (keep_if is_cloud ps) m in
              let (d, _, q) = Has-of_map _ a ds k in kinds_apart d.id p.id (sym q ∙ e)
          | inr k ↦ cloud_apart ps ds a hp m k
        ])

  row_ids-head :
      (ps : List (ProviderLike Num)) (ds : List (DeploymentLike Num)) (b : Text)
      → Has b (row_ids ps ds)
      → ((id : Text) × (b ≡ prov_id id)) ⊎ ((id : Text) × (b ≡ dep_id id))
  row_ids-head ps ds b h =
      elim (Has-append_cases b (map (λ p. prov_id p.id) (keep_if is_cloud ps)) _ h) [
        | inl k ↦ let (p, _, e) = Has-of_map _ b (keep_if is_cloud ps) k in inl (p.id, e)
        | inr k ↦ elim (Has-append_cases b (map (λ d. dep_id d.id) ds) _ k) [
          | inl k ↦ let (d, _, e) = Has-of_map _ b ds k in inr (d.id, e)
          | inr k ↦ let (p, _, e) = Has-of_map _ b (keep_if (is_fallback ds) ps) k in inl (p.id, e)
        ]
      ]

module _ {Num : Type 0} (numbers : Numbers Num) (ps : List (ProviderLike Num))
    (ds : List (DeploymentLike Num)) (summary : Option (DashboardSummaryLike Num)) where
  backbone-Distinct : Distinct (node_ids (backbone numbers summary))
  unfolding backbone
  backbone-Distinct = ground arith

  backbone_apart :
      (a : Text)
      → Has a (node_ids (backbone numbers summary))
      → ((id : Text) × (a ≡ prov_id id)) ⊎ ((id : Text) × (a ≡ dep_id id))
      → ⊥
  unfolding backbone
  backbone_apart a m k = ground arith

  -- If no two providers and no two deployments have one id, no two nodes of the map do.
  pub build_topology-Distinct :
      Distinct (map (λ p. p.id) ps)
      → Distinct (map (λ d. d.id) ds)
      → Distinct (node_ids (build_topology numbers ps ds summary).nodes)
  build_topology-Distinct hp hd =
      rw (node_ids-nodes, model_nodes-row_ids ps ds)
        (Distinct-append (node_ids (backbone numbers summary)) (row_ids ps ds) backbone-Distinct
          (row_ids-Distinct ps ds hp hd) (λ a m k. backbone_apart a m (row_ids-head ps ds a k)))
