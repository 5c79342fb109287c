-- ===== src/Live/SocketLaws.antt =====
-- The topics that the hub of the open connection serves are those with a subscription.
use llmplane.Common.{
  ℕ, ◌≡◌, refl, inl, inr, Bool, true, false, not, ◌&&◌, ◌||◌, List, [], ◌∷◌, Option, none, some,
  Text, text_eq, text_eq_iff, Dict, lookup, lookup-insert, lookup-remove, any, Option-cases, arith,
}
use llmplane.Live.Socket.{
  connecting, Frame, subscribe_to, unsubscribe_from, data_frame, Provider, initial, Event, mount,
  mount_fails, unmount, timer_fires, timer_fires_and_fails, on_open, on_close, on_error, subscribe,
  unsubscribe, send, is_open, connect, connect_fails, keys, resubscribe, on_socket_open,
  on_socket_close, if_open, add_callback, delete_callback, on_subscribe, on_unsubscribe, step, run,
}

abbrev pub is_given {ℓ} : {A : Type ℓ} → Option A → Bool
is_given none = false
is_given (some a) = true

-- Whether the hub serves the topic, after the frames.
abbrev hear : Text → Bool → List Frame → Bool
hear t b [] = b
hear t b (subscribe_to k ∷ fs) = hear t (text_eq k t || b) fs
hear t b (unsubscribe_from k ∷ fs) = hear t (not (text_eq k t) && b) fs
hear t b (data_frame k d ∷ fs) = hear t b fs

-- Whether the hub serves the topic after a run: a connection begins with none.
pub hub : Text → Provider → Bool → List Event → Bool
hub t p b [] = b
hub t p b (e ∷ es) = hub t (step p e).0 (hear t (is_open p.socket && b) (step p e).1) es

abbrev Agrees : Text → Provider → Bool → Type 0
Agrees t p b = is_open p.socket ≡ true → b ≡ is_given (lookup t p.subscriptions)

hear-resubscribe :
    (t : Text) (b : Bool) (ks : List Text)
    → hear t b (resubscribe ks) ≡ (b || any (λ k. text_eq k t) ks)
unfolding resubscribe
hear-resubscribe t b [] = ground arith
hear-resubscribe t b (k ∷ ks) = ground (arith, hear-resubscribe t (text_eq k t || b) ks)

any-keys : (t : Text) (m : Dict (List ℕ)) → any (λ k. text_eq k t) (keys m) ≡ is_given (lookup t m)
unfolding lookup
any-keys t [] = refl
any-keys t ((k, v) ∷ m) = ground (arith, any-keys t m)

on_subscribe-Agrees :
    (t k : Text) (c : ℕ) (p : Provider) (b : Bool)
    → Agrees t p b
    → Agrees t (on_subscribe k c p).0 (hear t (is_open p.socket && b) (on_subscribe k c p).1)
unfolding on_subscribe if_open
on_subscribe-Agrees t k c p b h = elim (Option-cases (lookup k p.subscriptions)) [
  | inl e ↦
      rw (e, on_subscribe)
        (ground (arith, e, h, text_eq_iff k t, lookup-insert k t (c ∷ []) p.subscriptions))
  | inr (cs, e) ↦
      rw (e, on_subscribe)
        (ground
          (arith, e, h, text_eq_iff k t, lookup-insert k t (add_callback c cs) p.subscriptions))
]

on_unsubscribe-Agrees :
    (t k : Text) (c : ℕ) (p : Provider) (b : Bool)
    → Agrees t p b
    → Agrees t (on_unsubscribe k c p).0 (hear t (is_open p.socket && b) (on_unsubscribe k c p).1)
unfolding on_unsubscribe if_open
on_unsubscribe-Agrees t k c p b h = elim (Option-cases (lookup k p.subscriptions)) [
  | inl e ↦ rw (e, on_unsubscribe) (ground (arith, e, h))
  | inr (cs, e) ↦
      rw (e, on_unsubscribe)
        (ground (
          arith,
          e,
          h,
          text_eq_iff k t,
          lookup-remove k t p.subscriptions,
          lookup-insert k t (delete_callback c cs) p.subscriptions,
        ))
]

step-Agrees :
    (t : Text) (p : Provider) (b : Bool) (e : Event)
    → Agrees t p b
    → Agrees t (step p e).0 (hear t (is_open p.socket && b) (step p e).1)
unfolding step connect connect_fails on_socket_close on_socket_open if_open
step-Agrees t p b mount h = ground arith
step-Agrees t p b unmount h = ground arith
step-Agrees t p b timer_fires h = ground arith
step-Agrees t p b timer_fires_and_fails h = ground arith
step-Agrees t p b mount_fails h = ground arith
step-Agrees t p b on_open h =
    ground (arith, hear-resubscribe t false (keys p.subscriptions), any-keys t p.subscriptions)
step-Agrees t p b on_close h = ground arith
step-Agrees t p b on_error h = ground arith
step-Agrees t p b (subscribe k c) h = on_subscribe-Agrees t k c p b h
step-Agrees t p b (unsubscribe k c) h = on_unsubscribe-Agrees t k c p b h
step-Agrees t p b (send k d) h = ground arith

run-Agrees :
    (t : Text) (p : Provider) (b : Bool) (es : List Event)
    → Agrees t p b
    → Agrees t (run p es).0 (hub t p b es)
unfolding run hub
run-Agrees t p b [] h = h
run-Agrees t p b (e ∷ es) h = run-Agrees t (step p e).0 _ es (step-Agrees t p b e h)

initial-Agrees : (t : Text) → Agrees t initial false
unfolding initial
initial-Agrees t h = ground arith

-- Whatever the callers and the browser do, with any number of reconnections: whenever the socket is
-- open, the frames sent on that connection leave the hub serving a topic exactly if the topic has a
-- subscription.
pub run-served :
    (t : Text) (es : List Event)
    → is_open (run initial es).0.socket ≡ true
    → hub t initial false es ≡ is_given (lookup t (run initial es).0.subscriptions)
run-served t es = run-Agrees t initial false es (initial-Agrees t)

-- Leaving the page does not end the connection: the socket's close, when it comes, arms the timer
-- again, and the timer connects, with nobody left to close it.
pub unmount-reconnects :
    (p : Provider)
    → is_open p.socket ≡ true
    → let after = (run p (unmount ∷ on_close ∷ timer_fires ∷ [])).0 in
      (after.mounted ≡ false) × (after.socket ≡ connecting)
unfolding run step connect on_socket_close
unmount-reconnects p h = ground arith
