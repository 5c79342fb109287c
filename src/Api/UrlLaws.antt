-- ===== src/Api/UrlLaws.antt =====
-- What base URLs come out of `resolveBaseUrl` and `resolveWsUrl`, and what the guard lets through.
use llmplane.Common.{
  ℕ, ◌≡◌, refl, sym, ap, ◌∙◌, ◌≢◌, ◌⊎◌, inl, inr, Bool, true, false, [], ◌∷◌, ◌++◌, Option, none,
  some, arith, Text, text, text_methods, is_space, starts_with, strip_start, strip_end,
  strip_slashes, keep_end, ends_with, All, Bool-cases, append_assoc, ◌==◌,
}
use llmplane.Common.TextLaws.{ends_with_split, ends_with-append, strip_end-append}
use llmplane.Api.Url.{
  api_v1_prefix, fallback_base, trimmed_url, base_of_trimmed, resolve_base_url, guard_base,
  count_api_from, or_empty,
}

-- Text that begins with no white space, and ends in neither white space nor a slash.
abbrev IsTrimmed : Text → Type 0
IsTrimmed s = trimmed_url (some s) ≡ s

strip_start_head :
    (p : ℕ → Bool) (s : Text)
    → (strip_start p s ≡ []) ⊎ ((c : ℕ) × (t : Text) × (strip_start p s ≡ c ∷ t) × (p c ≡ false))
unfolding strip_start
strip_start_head p [] = inl refl
strip_start_head p (c ∷ s) = elim (Bool-cases (p c)) [
  | inl e ↦ rw e (strip_start_head p s)
  | inr e ↦ inr (c, s, rw e, e)
]

keep_end_head :
    (p : ℕ → Bool) (c : ℕ) (r : Text)
    → (keep_end p c r ≡ []) ⊎ ((t : Text) × (keep_end p c r ≡ c ∷ t))
keep_end_head p c (d ∷ s) = inr (d ∷ s, refl)
keep_end_head p c [] = elim (Bool-cases (p c)) [ inl e ↦ inl (rw e) | inr e ↦ inr ([], rw e) ]

strip_end_head :
    (p : ℕ → Bool) (c : ℕ) (s : Text)
    → (strip_end p (c ∷ s) ≡ []) ⊎ ((t : Text) × (strip_end p (c ∷ s) ≡ c ∷ t))
unfolding strip_end
strip_end_head p c s = keep_end_head p c (strip_end p s)

trimmed_url_head :
    (raw : Option Text)
    → (trimmed_url raw ≡ [])
      ⊎ ((c : ℕ) × (t : Text) × (trimmed_url raw ≡ c ∷ t) × (is_space c ≡ false))
unfolding trimmed_url
trimmed_url_head raw = elim (strip_start_head is_space (or_empty raw)) [
  | inl e ↦ inl (rw e (unfold strip_end in refl))
  | inr (c, t, e, q) ↦ elim (strip_end_head is_space c t) [
    | inl f ↦ inl (rw (e, f) (unfold strip_end in refl))
    | inr (u, f) ↦ elim (strip_end_head (λ c. c == b'/') c u) [
      | inl g ↦ inl (rw (e, f) g)
      | inr (v, g) ↦ inr (c, v, rw (e, f) g, q)
    ]
  ]
]

-- A text stays as it is if it begins with no space and has an end that stays.
IsTrimmed-suffix :
    (c : ℕ) (s b : Text) (d : ℕ) (q : Text)
    → is_space c ≡ false
    → c ∷ s ≡ b ++ d ∷ q
    → strip_end is_space (d ∷ q) ≡ d ∷ q
    → strip_slashes (d ∷ q) ≡ d ∷ q
    → IsTrimmed (c ∷ s)
unfolding trimmed_url strip_start
IsTrimmed-suffix c s b d q start e h k =
    rw (start, e, strip_end-append is_space b d q h) (strip_end-append (λ c. c == b'/') b d q k)

fallback-IsTrimmed : IsTrimmed fallback_base
unfolding trimmed_url fallback_base text_methods
fallback-IsTrimmed = refl

prefix_end_kept :
    (strip_end is_space api_v1_prefix ≡ api_v1_prefix)
    × (strip_slashes api_v1_prefix ≡ api_v1_prefix)
unfolding api_v1_prefix text_methods
prefix_end_kept = (refl, refl)

-- A trimmed text that does not start with a space and ends with the prefix is its own base.
base_fixed :
    (c : ℕ) (s b : Text)
    → is_space c ≡ false
    → c ∷ s ≡ b ++ api_v1_prefix
    → resolve_base_url (some (c ∷ s)) ≡ c ∷ s
unfolding resolve_base_url base_of_trimmed api_v1_prefix
base_fixed c s b start e =
    rw (IsTrimmed-suffix c s b b'/' (text "api/v1") start e prefix_end_kept.0 prefix_end_kept.1)
      (rw e (rw (ends_with-append b api_v1_prefix) refl))

-- The shape of every base: it starts with no space and ends with the prefix.
abbrev BaseForm : Text → Type 0
BaseForm base =
    (c : ℕ) × (s : Text) × (b : Text) × (base ≡ c ∷ s)
    × (is_space c ≡ false)
    × (c ∷ s ≡ b ++ api_v1_prefix)

base_of_trimmed-BaseForm :
    (c : ℕ) (u : Text) → is_space c ≡ false → BaseForm (base_of_trimmed (c ∷ u))
unfolding base_of_trimmed api_v1_prefix
base_of_trimmed-BaseForm c u start = elim (Bool-cases (ends_with (c ∷ u) api_v1_prefix)) [
  | inl e ↦ let (b, q) = ends_with_split (c ∷ u) api_v1_prefix e in (c, u, b, rw e, start, q)
  | inr e ↦ (c, u ++ api_v1_prefix, c ∷ u, rw e, start, refl)
]

resolve_base_url-BaseForm : (raw : Option Text) → BaseForm (resolve_base_url raw)
unfolding resolve_base_url
resolve_base_url-BaseForm raw = elim (trimmed_url_head raw) [
  | inl e ↦ rw e (
      unfold base_of_trimmed in
      (
        b'h',
        text "ttp://localhost:8000/api/v1",
        text "http://localhost:8000",
        refl,
        unfold is_space in refl,
        refl,
      ))
  | inr (c, u, e, start) ↦ rw e (base_of_trimmed-BaseForm c u start)
]

-- Whatever the environment variable holds, resolving the result again changes nothing, and the
-- result ends with the prefix that the backend mounts its routes under.
resolve_base_url_idempotent :
    (raw : Option Text)
    → (resolve_base_url (some (resolve_base_url raw)) ≡ resolve_base_url raw)
      × (ends_with (resolve_base_url raw) api_v1_prefix ≡ true)
resolve_base_url_idempotent raw =
    let (c, s, b, e, start, q) = resolve_base_url-BaseForm raw in
    rw e (base_fixed c s b start q, rw q (ends_with-append b api_v1_prefix))

first_char : (c : ℕ) (s : Text) → trimmed_url (some (c ∷ s)) ≡ c ∷ s → is_space c ≡ false
first_char c s h = elim (trimmed_url_head (some (c ∷ s))) [
  | inl e ↦ cc
  | inr (d, u, e, start) ↦ let same : c ≡ d = cc in rw same start
]

-- The two forms that people paste, the bare origin and the full base, give the same base: a
-- trimmed origin that is not empty and does not end with the prefix.
resolve_base_url-both_forms :
    (origin : Text)
    → trimmed_url (some origin) ≡ origin
    → origin ≢ []
    → ends_with origin api_v1_prefix ≡ false
    → (resolve_base_url (some origin) ≡ origin ++ api_v1_prefix)
      × (resolve_base_url (some (origin ++ api_v1_prefix)) ≡ origin ++ api_v1_prefix)
unfolding resolve_base_url
resolve_base_url-both_forms [] h ne f = absurd (ne refl)
resolve_base_url-both_forms (c ∷ s) h ne f =
    let start : is_space c ≡ false = first_char c s h in
    (
      rw h (unfold base_of_trimmed in rw f refl),
      base_fixed c (s ++ api_v1_prefix) (c ∷ s) start refl,
    )

abbrev NoSlash : Text → Type 0
NoSlash s = All (λ c. (c == b'/') ≡ false) s

-- Characters other than a slash begin no match of the guard's pattern.
count_api_from-NoSlash : (h s : Text) → NoSlash h → count_api_from 0 (h ++ s) ≡ count_api_from 0 s
unfolding count_api_from starts_with
count_api_from-NoSlash [] s k = refl
count_api_from-NoSlash (c ∷ h) s (p, k) = rw p (count_api_from-NoSlash h s k)

-- A slash begins a match unless the host is "api".
host_starts :
    (h s : Text) → NoSlash h → h ≢ text "api" → starts_with (h ++ b'/' ∷ s) (text "api/") ≡ false
unfolding starts_with
host_starts [] s k ne = refl
host_starts (a ∷ []) s k ne = ground arith
host_starts (a ∷ b ∷ []) s k ne = ground arith
host_starts (a ∷ b ∷ c ∷ []) s k ne =
    ground (arith, λ (p : a ≡ 97) (q : b ≡ 112) (r : c ≡ 105). ne (cc (p, q, r)))
host_starts (a ∷ b ∷ c ∷ d ∷ h) s k ne = ground arith

last_or : ℕ → Text → ℕ
last_or d [] = d
last_or d (c ∷ s) = last_or c s

last_or-append : (d e : ℕ) (b s : Text) → last_or d (b ++ e ∷ s) ≡ last_or e s
unfolding last_or
last_or-append d e [] s = refl
last_or-append d e (c ∷ b) s = last_or-append c e b s

ends_apart : (b b' : Text) → b ++ text "/api" ≢ b' ++ text "/api/v1"
unfolding last_or
ends_apart b b' q =
    let e : last_or 0 (b ++ text "/api") ≡ b'i' = last_or-append 0 b'/' b (text "api") in
    let f : last_or 0 (b' ++ text "/api/v1") ≡ b'1' = last_or-append 0 b'/' b' (text "api/v1") in
    omega (arith, sym e ∙ ap (last_or 0) q ∙ f)

not_prefixed : (b : Text) → ends_with (b ++ text "/api") api_v1_prefix ≡ false
not_prefixed b = elim (Bool-cases (ends_with (b ++ text "/api") api_v1_prefix)) [
  | inr e ↦ e
  | inl e ↦
      let (b', q) = ends_with_split (b ++ text "/api") api_v1_prefix e in
      absurd (ends_apart b b' (unfold api_v1_prefix in q))
]

-- An origin of the form https://host/api, a near miss of the full base, becomes a base that holds
-- "/api" twice, and the guard says nothing: its two matches would share a slash, and the pattern
-- counts only one. The host is not empty, has no slash and is not "api" itself.
guard_base-api_suffix :
    (h : Text)
    → NoSlash h
    → h ≢ text "api"
    → (resolve_base_url (some (text "https://" ++ h ++ text "/api"))
        ≡ text "https://" ++ h ++ text "/api/api/v1")
      × (guard_base (text "https://" ++ h ++ text "/api/api/v1") ≡ none)
unfolding resolve_base_url
guard_base-api_suffix h k ne = (
  rw
      (IsTrimmed-suffix b'h' (text "ttps://" ++ h ++ text "/api") (text "https://" ++ h) b'/'
        (text "api") (unfold is_space in refl) refl (unfold text_methods in refl)
        (unfold text_methods in refl))
      (unfold base_of_trimmed api_v1_prefix in
        rw (not_prefixed (text "https://" ++ h))
          (rw (append_assoc h (text "/api") (text "/api/v1")) refl)),
  unfold guard_base count_api_from in
      rw (host_starts h (text "api/api/v1") k ne)
        (rw (count_api_from-NoSlash h (text "/api/api/v1") k) refl),
)
