-- ===== src/Widgets/AxisLaws.antt =====
-- How the theme fills up the axes that a caller declares, one or an array of them.
use llmplane.Common.{
  ◌≡◌, refl, ap, ◌∙◌, [], ◌∷◌, Option, none, some, Text, text_eq_iff, Dict, lookup, insert, spread,
  lookup-insert, arith,
}
use llmplane.Widgets.Values.{Value, atom, str, array, object, Items, nil, cons, dict_of, fields_of}
use llmplane.Widgets.Chart.{with_defaults, with_defaults_each}

-- The keys of a JavaScript object are distinct.
abbrev pub IsObject {ℓ} : {V : Type ℓ} → Dict V → Type ℓ
IsObject [] = Unit
IsObject ((k, v) ∷ m) = (lookup k m ≡ none) × IsObject m

abbrev pub or_default {ℓ} : {V : Type ℓ} → Option V → Option V → Option V
or_default none d = d
or_default (some v) d = some v

module _ {V : Type 0} where
  pub lookup-spread :
      (j : Text) (m over : Dict V)
      → IsObject over
      → lookup j (spread m over) ≡ or_default (lookup j over) (lookup j m)
  unfolding lookup spread
  lookup-spread j m [] h = refl
  lookup-spread j m ((k, v) ∷ over) (n, h) =
      ground
        (arith, n, text_eq_iff k j, lookup-insert k j v m, lookup-spread j (insert k v m) over h)

module _ {A : Type 0} where
  dict_of-fields_of : (m : Dict (Value A)) → dict_of (fields_of m) ≡ m
  dict_of-fields_of [] = refl
  dict_of-fields_of ((k, v) ∷ m) = ap (λ r. (k, v) ∷ r) (dict_of-fields_of m)

  -- The objects among the axes have distinct keys.
  unfoldable mutual
    pub IsAxis : Value A → Type 0
    IsAxis (object fs) = IsObject (dict_of fs)
    IsAxis (array vs) = AreAxes vs
    IsAxis (atom a) = Unit
    IsAxis (str s) = Unit

    pub AreAxes : Items A → Type 0
    AreAxes nil = Unit
    AreAxes (cons v vs) = IsAxis v × AreAxes vs

  -- `IsFilled m v w`: each object of `w` has under every key what that of `v` has there, or else the default
  -- of `m`, an array has as many axes, in order, and any other value is as it was.
  unfoldable mutual
    pub IsFilled : Dict (Value A) → Value A → Value A → Type 0
    IsFilled m (object fs) (object gs) =
        (k : Text) → lookup k (dict_of gs) ≡ or_default (lookup k (dict_of fs)) (lookup k m)
    IsFilled m (array vs) (array ws) = AreFilled m vs ws
    IsFilled m (atom a) w = w ≡ atom a
    IsFilled m (str s) w = w ≡ str s
    IsFilled m v w = ⊥

    pub AreFilled : Dict (Value A) → Items A → Items A → Type 0
    AreFilled m nil nil = Unit
    AreFilled m (cons v vs) (cons w ws) = IsFilled m v w × AreFilled m vs ws
    AreFilled m vs ws = ⊥

  mutual
    unfolding with_defaults with_defaults_each IsAxis AreAxes IsFilled AreFilled

    pub with_defaults-IsFilled :
        (m : Dict (Value A)) (v : Value A) → IsAxis v → IsFilled m v (with_defaults m v)
    with_defaults-IsFilled m (object fs) h = λ k.
        ap (lookup k) (dict_of-fields_of (spread m (dict_of fs))) ∙ lookup-spread k m (dict_of fs) h
    with_defaults-IsFilled m (array vs) h = with_defaults-AreFilled m vs h
    with_defaults-IsFilled m (atom a) h = refl
    with_defaults-IsFilled m (str s) h = refl

    with_defaults-AreFilled :
        (m : Dict (Value A)) (vs : Items A) → AreAxes vs → AreFilled m vs (with_defaults_each m vs)
    with_defaults-AreFilled m nil h = tt
    with_defaults-AreFilled m (cons v vs) (h, k) =
        (with_defaults-IsFilled m v h, with_defaults-AreFilled m vs k)
