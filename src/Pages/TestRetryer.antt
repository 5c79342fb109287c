-- ===== src/Pages/TestRetryer.antt =====
-- A client that asks again as the policy says, for the examples.
use llmplane.Common.{ℕ, zero, suc, ◌≡◌, refl, sym, ◌∙◌, true, false, some, arith, Option, none}
use llmplane.Api.Fetch.{Result, value, api_error, thrown, retry}
use llmplane.Pages.RetryLaws.{Retryer, is_failure, status_of, of_two}

pub settle_in : (ℕ → Result) → ℕ → Result
settle_in o zero = of_two (o 0) (o 1)
settle_in o (suc n) = o (suc n)

first_success : (r s : Result) → is_failure r ≡ false → of_two r s ≡ r
first_success (value v) s h = refl
first_success (api_error status message body) s h = cc
first_success (thrown message) s h = cc

first_stop : (r s : Result) → retry 0 (status_of r) ≡ false → of_two r s ≡ r
unfolding retry status_of
first_stop (value v) s h = refl
first_stop (api_error status message body) s h = ground arith
first_stop (thrown message) s h = cc

first_again : (r s : Result) → is_failure r ≡ true → retry 0 (status_of r) ≡ true → of_two r s ≡ s
unfolding retry status_of
first_again (value v) s h k = cc
first_again (api_error status message body) s h k = ground arith
first_again (thrown message) s h k = refl

later : (n : ℕ) (status : Option ℕ) → retry (suc n) status ≡ false
unfolding retry
later n none = ground arith
later n (some status) = ground arith

pub settle_in-first : (o : ℕ → Result) (n : ℕ) → is_failure (o n) ≡ false → settle_in o n ≡ o n
unfolding settle_in
settle_in-first o zero h = first_success (o 0) (o 1) h
settle_in-first o (suc n) h = refl

pub settle_in-stops :
    (o : ℕ → Result) (n : ℕ) → retry n (status_of (o n)) ≡ false → settle_in o n ≡ o n
unfolding settle_in
settle_in-stops o zero h = first_stop (o 0) (o 1) h
settle_in-stops o (suc n) h = refl

pub settle_in-again :
    (o : ℕ → Result) (n : ℕ)
    → is_failure (o n) ≡ true
    → retry n (status_of (o n)) ≡ true
    → settle_in o n ≡ settle_in o (suc n)
unfolding settle_in
settle_in-again o zero h k = first_again (o 0) (o 1) h k
settle_in-again o (suc n) h k = absurd (apart (sym k ∙ later n (status_of (o (suc n)))))
  where
    apart : true ≡ false → ⊥
    apart e = cc

abbrev pub test_retryer : Retryer retry
test_retryer = record {
  settle = settle_in;
  settle-success = settle_in-first;
  settle-stop = settle_in-stops;
  settle-again = settle_in-again;
}
