-- ===== src/Live/Delivery.antt =====
-- Which callbacks a message reaches, after a subscription and after its end.
use llmplane.Common.{
  text_eq_refl, ℕ, ◌≡◌, refl, inl, inr, Bool, true, false, List, [], ◌∷◌, ◌++◌, none, Text, text_eq,
  lookup, insert, remove, lookup-insert, lookup-remove, any, if◌then◌else◌, ◌==◌, Option-cases,
  Bool-cases, arith,
}
use llmplane.Live.Socket.{
  Provider, add_callback, delete_callback, on_subscribe, on_unsubscribe, on_message,
}

abbrev pub calls : ℕ → List ℕ → Bool
calls c cs = any (λ d. d == c) cs

calls-append : (c : ℕ) (cs : List ℕ) → calls c (cs ++ c ∷ []) ≡ true
calls-append c [] = ground arith
calls-append c (d ∷ cs) = ground (arith, calls-append c cs)

calls-add_callback : (c : ℕ) (cs : List ℕ) → calls c (add_callback c cs) ≡ true
unfolding add_callback
calls-add_callback c cs = elim (Bool-cases (calls c cs)) [
  | inl e ↦ rw (e) e
  | inr e ↦ rw (e) (calls-append c cs)
]

calls-delete_callback : (c : ℕ) (cs : List ℕ) → calls c (delete_callback c cs) ≡ false
unfolding delete_callback
calls-delete_callback c [] = refl
calls-delete_callback c (d ∷ cs) = ground (arith, calls-delete_callback c cs)

pub on_message-insert :
    (t j : Text) (v : List ℕ) (p : Provider)
    → on_message j (record p { subscriptions = insert t v p.subscriptions })
      ≡ (if text_eq t j then v else on_message j p)
unfolding on_message
on_message-insert t j v p = ground (arith, lookup-insert t j v p.subscriptions)

pub unserved : (t : Text) (p : Provider) → lookup t p.subscriptions ≡ none → on_message t p ≡ []
unfolding on_message
unserved t p e = rw (e, on_message) refl

pub on_message-remove :
    (t j : Text) (p : Provider)
    → on_message j (record p { subscriptions = remove t p.subscriptions })
      ≡ (if text_eq t j then [] else on_message j p)
unfolding on_message
on_message-remove t j p = ground (arith, lookup-remove t j p.subscriptions)

-- Once a callback has subscribed to a topic, messages of the topic call it, and messages of other
-- topics call what they called before.
on_message-on_subscribe :
    (t : Text) (c : ℕ) (p : Provider)
    → (calls c (on_message t (on_subscribe t c p).0) ≡ true)
      × ((j : Text) → text_eq t j ≡ false → on_message j (on_subscribe t c p).0 ≡ on_message j p)
unfolding on_subscribe
on_message-on_subscribe t c p = elim (Option-cases (lookup t p.subscriptions)) [
  | inl e ↦
      rw (e, on_subscribe)
        (
          ground (arith, text_eq_refl t, on_message-insert t t (c ∷ []) p),
          λ j n. ground (arith, n, on_message-insert t j (c ∷ []) p),
        )
  | inr (cs, e) ↦
      rw (e, on_subscribe)
        (
          ground (
            arith,
            text_eq_refl t,
            calls-add_callback c cs,
            on_message-insert t t (add_callback c cs) p,
          ),
          λ j n. ground (arith, n, on_message-insert t j (add_callback c cs) p),
        )
]

-- Once its subscription has ended, messages of the topic do not call it any more, and messages of
-- other topics call what they called before.
on_message-on_unsubscribe :
    (t : Text) (c : ℕ) (p : Provider)
    → (calls c (on_message t (on_unsubscribe t c p).0) ≡ false)
      × ((j : Text) → text_eq t j ≡ false → on_message j (on_unsubscribe t c p).0 ≡ on_message j p)
unfolding on_unsubscribe
on_message-on_unsubscribe t c p = elim (Option-cases (lookup t p.subscriptions)) [
  | inl e ↦ rw (e, on_unsubscribe) (ground (arith, unserved t p e), λ j n. refl)
  | inr (cs, e) ↦
      rw (e, on_unsubscribe)
        (
          ground (
            arith,
            text_eq_refl t,
            calls-delete_callback c cs,
            on_message-remove t t p,
            on_message-insert t t (delete_callback c cs) p,
          ),
          λ j n.
              ground
                (arith, n, on_message-remove t j p, on_message-insert t j (delete_callback c cs) p),
        )
]
