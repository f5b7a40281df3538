-- ===== src/Promotion/Attempts.antt =====
-- The HEAD requests of _head_with_retry.
use mctrader_data.Prelude.{ℕ, suc, zero, ◌+◌, ◌≤◌, ◌≡◌, refl, ap, sym, ◌∙◌, ◌⊎◌, inl, inr, arith}
use mctrader_data.Promotion.{
  Head, HeadAnswer, head_ok, client_error, unreachable, other_exception, HeadResult, got,
  head_attempts, head_with_retry,
}

got_injective : (f h : Head) → got f ≡ got h → f ≡ h
got_injective f h e = ground arith

module _ (nas : ℕ → HeadAnswer) where
  -- The last request, from number n on, was answered by this head.
  abbrev Last : ℕ → Head → HeadResult × ℕ → Type 0
  Last n h out = (i : ℕ) × (out.1 ≡ i + 1) × (n ≤ i) × (nas i ≡ head_ok h)

  -- One request, with the loop's promise for those after it.
  one_more :
      (k n : ℕ) (h : Head) (a : HeadAnswer)
      → nas n ≡ a
      → ((head_attempts nas k (n + 1)).0 ≡ got h → Last (n + 1) h (head_attempts nas k (n + 1)))
      → (head_attempts nas (suc k) n).0 ≡ got h
      → Last n h (head_attempts nas (suc k) n)
  unfolding head_attempts
  one_more k n h (head_ok f) q rest e = (
    n,
    rw (q, head_attempts) refl,
    omega arith,
    q ∙ ap head_ok (got_injective f h (rw (q, head_attempts) at e)),
  )
  one_more k n h client_error q rest e = absurd (ground (arith, rw (q, head_attempts) at e))
  one_more k n h unreachable q rest e =
      let step : head_attempts nas (suc k) n ≡ head_attempts nas k (n + 1) =
        rw (q, head_attempts) refl in
      let (i, last, later, answer) = rest (sym (ap (λ r. r.0) step) ∙ e) in
      (i, ap (λ r. r.1) step ∙ last, omega arith, answer)
  one_more k n h other_exception q rest e = absurd (ground (arith, rw (q, head_attempts) at e))

  -- A head that was got is the answer of the last request.
  pub head_attempts-got :
      (k n : ℕ) (h : Head)
      → (head_attempts nas k n).0 ≡ got h
      → (i : ℕ) × ((head_attempts nas k n).1 ≡ i + 1) × (n ≤ i) × (nas i ≡ head_ok h)
  unfolding head_attempts
  head_attempts-got zero n h e = absurd (ground arith)
  head_attempts-got (suc k) n h e = one_more k n h (nas n) refl (head_attempts-got k (n + 1) h) e

  pub head_attempts-le : (k n : ℕ) → (head_attempts nas k n).1 ≤ n + k
  unfolding head_attempts
  head_attempts-le zero n = omega arith
  head_attempts-le (suc k) n = ground (arith, head_attempts-le k (n + 1))

  -- With an object that answers, after one connection error in a row at most, a HEAD is got.
  pub head_with_retry-succeeds :
      (h : Head) (n : ℕ)
      → ((m : ℕ) → (nas m ≡ head_ok h) ⊎ ((nas m ≡ unreachable) × (nas (m + 1) ≡ head_ok h)))
      → (head_with_retry nas n).0 ≡ got h
  unfolding head_with_retry head_attempts
  head_with_retry-succeeds h n steady = elim (steady n) [
    | inl now ↦ rw (now, head_attempts) refl
    | inr (failed, next) ↦ rw (failed, head_attempts, next) refl
  ]
