-- ===== src/Live/Refinement.antt =====
-- The subscriptions of frontend/components/shared/WebSocketProvider.tsx as a set of pairs of a topic
-- and a callback, which the map of lists implements.
use llmplane.Common.{
  bit, text_eq_iff, ℕ, ◌+◌, ◌≡◌, refl, inl, inr, Bool, true, false, not, ◌&&◌, List, [], ◌∷◌, ◌++◌,
  some, Text, text_eq, lookup, any, if◌then◌else◌, ◌==◌, Option-cases, arith,
}
use llmplane.Live.Socket.{
  Provider, Event, mount, mount_fails, unmount, timer_fires, timer_fires_and_fails, on_open,
  on_close, on_error, subscribe, unsubscribe, send, add_callback, delete_callback, on_subscribe,
  on_unsubscribe, on_message, connect, connect_fails, on_socket_open, on_socket_close, step, run,
  initial,
}
use llmplane.Live.Delivery.{on_message-insert, on_message-remove, unserved}

-- Whether the callback is wanted for the topic after one event.
abbrev pub wanted_after : Text → ℕ → Event → Bool → Bool
wanted_after t c (subscribe u d) b = if text_eq u t && (d == c) then true else b
wanted_after t c (unsubscribe u d) b = if text_eq u t && (d == c) then false else b
wanted_after t c _ b = b

abbrev pub wanted : Text → ℕ → List Event → Bool → Bool
wanted t c [] b = b
wanted t c (e ∷ es) b = wanted t c es (wanted_after t c e b)

abbrev pub count : ℕ → List ℕ → ℕ
count c [] = 0
count c (d ∷ cs) = (if d == c then 1 else 0) + count c cs

count-append : (c d : ℕ) (cs : List ℕ) → count c (cs ++ d ∷ []) ≡ count c cs + bit (d == c)
count-append c d [] = ground arith
count-append c d (e ∷ cs) = ground (arith, count-append c d cs)

any-count : (c : ℕ) (cs : List ℕ) → any (λ d. d == c) cs ≡ not (count c cs == 0)
any-count c [] = ground arith
any-count c (d ∷ cs) = ground (arith, any-count c cs)

count-add_callback :
    (c d : ℕ) (cs : List ℕ) (b : Bool)
    → count c cs ≡ bit b
    → count c (add_callback d cs) ≡ bit (if d == c then true else b)
unfolding add_callback
count-add_callback c d cs b h = ground (arith, h, any-count d cs, count-append c d cs)

count-delete_callback :
    (c d : ℕ) (cs : List ℕ) → count c (delete_callback d cs) ≡ (if d == c then 0 else count c cs)
unfolding delete_callback
count-delete_callback c d [] = ground arith
count-delete_callback c d (e ∷ cs) = ground (arith, count-delete_callback c d cs)

served :
    (t : Text) (p : Provider) (cs : List ℕ)
    → lookup t p.subscriptions ≡ some cs
    → on_message t p ≡ cs
unfolding on_message
served t p cs e = rw (e, on_message) refl

abbrev Agrees : Text → ℕ → Bool → Provider → Type 0
Agrees t c b p = count c (on_message t p) ≡ bit b

on_subscribe-Agrees :
    (t u : Text) (c d : ℕ) (b : Bool) (p : Provider)
    → Agrees t c b p
    → Agrees t c (wanted_after t c (subscribe u d) b) (on_subscribe u d p).0
unfolding on_subscribe
on_subscribe-Agrees t u c d b p h = elim (Option-cases (lookup u p.subscriptions)) [
  | inl e ↦
      rw (e, on_subscribe)
        (ground (arith, h, text_eq_iff u t, unserved u p e, on_message-insert u t (d ∷ []) p))
  | inr (cs, e) ↦
      rw (e, on_subscribe)
        (ground (
          arith,
          h,
          text_eq_iff u t,
          served u p cs e,
          count-add_callback c d cs b,
          on_message-insert u t (add_callback d cs) p,
        ))
]

on_unsubscribe-Agrees :
    (t u : Text) (c d : ℕ) (b : Bool) (p : Provider)
    → Agrees t c b p
    → Agrees t c (wanted_after t c (unsubscribe u d) b) (on_unsubscribe u d p).0
unfolding on_unsubscribe
on_unsubscribe-Agrees t u c d b p h = elim (Option-cases (lookup u p.subscriptions)) [
  | inl e ↦ rw (e, on_unsubscribe) (ground (arith, h, text_eq_iff u t, unserved u p e))
  | inr (cs, e) ↦
      rw (e, on_unsubscribe)
        (ground (
          arith,
          h,
          text_eq_iff u t,
          served u p cs e,
          count-delete_callback c d cs,
          on_message-remove u t p,
          on_message-insert u t (delete_callback d cs) p,
        ))
]

step-Agrees :
    (t : Text) (c : ℕ) (b : Bool) (p : Provider) (e : Event)
    → Agrees t c b p
    → Agrees t c (wanted_after t c e b) (step p e).0
unfolding step connect connect_fails on_socket_open on_socket_close on_message
step-Agrees t c b p (subscribe u d) h = on_subscribe-Agrees t u c d b p h
step-Agrees t c b p (unsubscribe u d) h = on_unsubscribe-Agrees t u c d b p h
step-Agrees t c b p mount h = h
step-Agrees t c b p unmount h = h
step-Agrees t c b p timer_fires h = ground (arith, h)
step-Agrees t c b p timer_fires_and_fails h = ground (arith, h)
step-Agrees t c b p mount_fails h = ground (arith, h)
step-Agrees t c b p on_open h = ground (arith, h)
step-Agrees t c b p on_close h = ground (arith, h)
step-Agrees t c b p on_error h = h
step-Agrees t c b p (send u d) h = h

run-Agrees :
    (t : Text) (c : ℕ) (b : Bool) (p : Provider) (es : List Event)
    → Agrees t c b p
    → Agrees t c (wanted t c es b) (run p es).0
unfolding run
run-Agrees t c b p [] h = h
run-Agrees t c b p (e ∷ es) h =
    run-Agrees t c (wanted_after t c e b) (step p e).0 es (step-Agrees t c b p e h)

-- After any events since the start, connections, losses and failures among them, a message of a topic
-- calls a callback exactly once if the last of its subscriptions and unsubscriptions to that topic was a
-- subscription, and does not call it otherwise.
pub run_refines :
    (t : Text) (c : ℕ) (es : List Event)
    → count c (on_message t (run initial es).0) ≡ (if wanted t c es false then 1 else 0)
unfolding initial on_message
run_refines t c es = run-Agrees t c false initial es refl
