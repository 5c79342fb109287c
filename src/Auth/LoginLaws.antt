-- ===== src/Auth/LoginLaws.antt =====
-- What the login page stores, and where it leads.
use llmplane.Common.{
  ◌≡◌, refl, ◌∙◌, Bool, true, false, not, List, [], ◌∷◌, Option, none, some, Text, is_empty, any,
  arith,
}
use llmplane.Api.Json.{Json}
use llmplane.Auth.Storage.{Storage, is_ok, is_authed, app_gate}
use llmplane.Auth.Login.{
  Pending, nothing, minting, verifying, LoginPage, Answer, unreachable, answer, Event, choose_mode,
  type_key, type_token, submit_key, submit_bootstrap, on_answer, leave, fail, store_key,
  verify_and_store, finally, go_to_dashboard, finish_key, minted_of, finish_bootstrap, shows_form,
  start, finish, step, run, new_page,
}

abbrev pub is_waiting : Pending → Bool
is_waiting nothing = false
is_waiting _ = true

abbrev submitted : Pending → Bool
submitted (verifying key) = not (is_empty key)
submitted _ = true

abbrev pub is_given {ℓ} : {A : Type ℓ} → Option A → Bool
is_given none = false
is_given (some a) = true

-- The page is busy exactly while it waits for an answer, waits with a key that is not blank, and has
-- left or shows a minted key only if the storage holds a credential.
pub record IsValid (p : LoginPage) : Type 0 where
  pub busy_iff : p.busy ≡ is_waiting p.pending
  pub not_blank : submitted p.pending ≡ true
  pub minted : is_given p.minted_key ≡ true → is_authed p.storage ≡ true
  pub left : is_given p.route ≡ true → is_authed p.storage ≡ true

finish_key-IsValid :
    (key : Text) (a : Answer) (p : LoginPage)
    → is_empty key ≡ false
    → IsValid p
    → IsValid (finish_key key a p)
unfolding finish_key finally fail go_to_dashboard verify_and_store store_key is_authed
finish_key-IsValid key unreachable p k h = ground arith
finish_key-IsValid key (answer status body) p k h = ground arith

minted_of-given : (body : Option Json) (k : Text) → minted_of body ≡ some k → is_empty k ≡ false
unfolding minted_of
minted_of-given body k h = ground arith

finish_bootstrap-IsValid : (a : Answer) (p : LoginPage) → IsValid p → IsValid (finish_bootstrap a p)
unfolding finish_bootstrap finally fail store_key is_authed
finish_bootstrap-IsValid unreachable p h = ground arith
finish_bootstrap-IsValid (answer status body) p h = ground (arith, minted_of-given body)

submit_key-IsValid : (p : LoginPage) → IsValid p → IsValid (step p submit_key)
unfolding step start
submit_key-IsValid p h = ground arith

submit_bootstrap-IsValid : (p : LoginPage) → IsValid p → IsValid (step p submit_bootstrap)
unfolding step start
submit_bootstrap-IsValid p h = ground arith

leave-IsValid : (p : LoginPage) → IsValid p → IsValid (step p leave)
unfolding step shows_form
leave-IsValid p h = ground arith

finish-IsValid :
    (q : Pending) (p : LoginPage) (a : Answer)
    → submitted q ≡ true
    → IsValid p
    → IsValid (finish q a p)
unfolding finish
finish-IsValid nothing p a k h = h
finish-IsValid minting p a k h = finish_bootstrap-IsValid a p h
finish-IsValid (verifying key) p a k h = finish_key-IsValid key a p (ground (arith, k)) h

step-IsValid : (p : LoginPage) (e : Event) → IsValid p → IsValid (step p e)
unfolding step
step-IsValid p (choose_mode b) h = ground arith
step-IsValid p (type_key v) h = ground arith
step-IsValid p (type_token v) h = ground arith
step-IsValid p submit_key h = submit_key-IsValid p h
step-IsValid p submit_bootstrap h = submit_bootstrap-IsValid p h
step-IsValid p (on_answer a) h = finish-IsValid p.pending p a h.not_blank h
step-IsValid p leave h = leave-IsValid p h

run-IsValid : (p : LoginPage) (es : List Event) → IsValid p → IsValid (run p es)
unfolding run
run-IsValid p [] h = h
run-IsValid p (e ∷ es) h = run-IsValid (step p e) es (step-IsValid p e h)

new_page-IsValid : (s : Storage) → IsValid (new_page s)
unfolding new_page
new_page-IsValid s = ground arith

-- Wherever a run of a new login page has sent the user, and whenever it shows a minted key, the gate of
-- the application lets the user in, so that the page and the gate do not send each other around; and
-- the page is busy exactly while it waits for an answer.
pub run-signed_in :
    (s : Storage) (es : List Event)
    → (is_given (run (new_page s) es).route ≡ true → app_gate (run (new_page s) es).storage ≡ none)
      × (is_given (run (new_page s) es).minted_key ≡ true
          → app_gate (run (new_page s) es).storage ≡ none)
      × ((run (new_page s) es).busy ≡ is_waiting (run (new_page s) es).pending)
unfolding app_gate
run-signed_in s es =
    let h = run-IsValid (new_page s) es (new_page-IsValid s) in
    (λ k. ground (arith, h.left k), λ k. ground (arith, h.minted k), h.busy_iff)

-- An answer with a status from 200 to 299.
abbrev pub accepts : Event → Bool
accepts (on_answer (answer status body)) = is_ok status
accepts e = false

finish-storage :
    (q : Pending) (a : Answer) (p : LoginPage)
    → accepts (on_answer a) ≡ false
    → (finish q a p).storage ≡ p.storage
unfolding finish finish_key finish_bootstrap finally fail go_to_dashboard verify_and_store
finish-storage nothing a p h = refl
finish-storage minting unreachable p h = refl
finish-storage minting (answer status body) p h = ground arith
finish-storage (verifying key) unreachable p h = refl
finish-storage (verifying key) (answer status body) p h = ground arith

step-storage : (p : LoginPage) (e : Event) → accepts e ≡ false → (step p e).storage ≡ p.storage
unfolding step start
step-storage p (choose_mode b) h = ground arith
step-storage p (type_key v) h = ground arith
step-storage p (type_token v) h = ground arith
step-storage p submit_key h = ground arith
step-storage p submit_bootstrap h = ground arith
step-storage p (on_answer a) h = finish-storage p.pending a p h
step-storage p leave h = ground arith

-- A run in which the backend accepts nothing leaves the storage as it was: a key that was rejected, or
-- that could not be checked, is not stored.
pub run-storage :
    (p : LoginPage) (es : List Event) → any accepts es ≡ false → (run p es).storage ≡ p.storage
unfolding run
run-storage p [] h = refl
run-storage p (e ∷ es) h =
    run-storage (step p e) es (ground (arith, h)) ∙ step-storage p e (ground (arith, h))
