-- ===== src/Retry.antt =====
-- The `retry` middleware of client/middleware/retry/retry.go. How the requests end is given for each
-- of them, and the comparison of errors by `tgerr.Is` is a parameter.
mod Examples
use save_any_bot.Prelude.{
  ℕ, zero, suc, ◌+◌, ◌≤◌, ◌<◌, ◌-◌, ◌≡◌, refl, Bool, true, false, String, Option, none, some, List,
  [], ◌∷◌, ◌++◌, if◌then◌else◌, arith, ap, ◌∙◌, ◌⊎◌, inl, inr, Bool-cases,
}

abbrev pub internal_errors : List String
internal_errors =
    "Timedout" ∷ "No workers running" ∷ "RPC_CALL_FAIL" ∷ "RPC_MCGET_FAIL"
    ∷ "WORKER_BUSY_TOO_LONG_RETRY" ∷ "memory limit exit" ∷ []

pub data RetryError : Type 0 where
  passed_on : String → RetryError
  limit_reached : ℕ → RetryError

-- How the requests ended, and how many were made.
pub record Handled : Type 0 where
  pub error : Option RetryError
  pub invocations : ℕ

module _ (is_one_of : String → List String → Bool) where
  next_retry : List String → ℕ → Option String → Handled → Handled
  next_retry errors k none rest = record { error = none; invocations = suc k }
  next_retry errors k (some e) rest =
      if is_one_of e errors
      then rest
      else record { error = some (passed_on e); invocations = suc k }

  -- The loop from the `k`th request on, with `left` more allowed.
  unfoldable pub handle_from : List String → ℕ → (ℕ → Option String) → ℕ → ℕ → Handled
  unfolding next_retry
  handle_from errors max at zero k = record { error = some (limit_reached max); invocations = k }
  handle_from errors max at (suc left) k =
      next_retry errors k (at k) (handle_from errors max at left (suc k))

  -- `New` with its errors, and `Handle`.
  unfoldable pub handle : List String → ℕ → (ℕ → Option String) → Handled
  unfolding handle_from
  handle errors max at = handle_from (errors ++ internal_errors) max at max 0

  unfoldable pub retriable : List String → Option String → Bool
  retriable errors none = false
  retriable errors (some e) = is_one_of e errors

  abbrev pub LastRequest : List String → (ℕ → Option String) → Handled → Option RetryError → Type 0
  LastRequest errors at r none = (0 < r.invocations) × (at (r.invocations - 1) ≡ none)
  LastRequest errors at r (some (passed_on e)) =
      (at (r.invocations - 1) ≡ some e) × (is_one_of e errors ≡ false)
  LastRequest errors at r (some (limit_reached m)) =
      (r.invocations ≡ m) × (0 < m → retriable errors (at (m - 1)) ≡ true)

  pub record Ends (errors : List String) (at : ℕ → Option String) (bound k : ℕ) (r : Handled)
      : Type 0 where
    pub at_most : r.invocations ≤ bound
    pub retried : (j : ℕ) → k ≤ j → suc j < r.invocations → retriable errors (at j) ≡ true
    pub last : LastRequest errors at r r.error

  next_retry-Ends :
      (errors : List String) (at : ℕ → Option String) (bound k : ℕ) (o : Option String)
      (rest : Handled)
      → at k ≡ o
      → k < bound
      → (retriable errors (at k) ≡ true → Ends errors at bound (suc k) rest)
      → Ends errors at bound k (next_retry errors k o rest)
  unfolding next_retry retriable
  next_retry-Ends errors at bound k none rest e h x = record {
    at_most = omega arith;
    retried = λ j a b. ground arith;
    last = (omega arith, ground (arith, e));
  }
  next_retry-Ends errors at bound k (some err) rest e h x =
      elim (Bool-cases (is_one_of err errors)) [
        | inl c ↦
            rw (c, next_retry)
              record {
                at_most = (x (again c)).at_most;
                retried = λ j a b. also j (again c) a b;
                last = (x (again c)).last;
              }
        | inr c ↦
            rw (c, next_retry)
              record {
                at_most = omega arith;
                retried = λ j a b. ground arith;
                last = (ground (arith, e), c);
              }
      ]
    where
      again : is_one_of err errors ≡ true → retriable errors (at k) ≡ true
      again c = ap (retriable errors) e ∙ c

      next : (j : ℕ) → k ≤ j → (suc k ≤ j) ⊎ (j ≡ k)
      next j a = omega arith

      also :
          (j : ℕ)
          → retriable errors (at k) ≡ true
          → k ≤ j
          → suc j < rest.invocations
          → retriable errors (at j) ≡ true
      also j p a b = elim (next j a) [
        | inl q ↦ (x p).retried j q b
        | inr q ↦ ap (λ i. retriable errors (at i)) q ∙ p
      ]

  handle_from-Ends :
      (errors : List String) (max : ℕ) (at : ℕ → Option String) (left k : ℕ)
      → max ≡ k + left
      → (0 < k → retriable errors (at (k - 1)) ≡ true)
      → Ends errors at max k (handle_from errors max at left k)
  unfolding handle_from
  handle_from-Ends errors max at zero k h p = record {
    at_most = omega arith;
    retried = λ j a b. ground arith;
    last = (omega arith, λ q. ap (λ i. retriable errors (at (i - 1))) limit ∙ p (omega arith));
  }
    where
      limit : max ≡ k
      limit = omega arith
  handle_from-Ends errors max at (suc left) k h p =
      next_retry-Ends errors at max k (at k) (handle_from errors max at left (suc k)) refl
        (omega arith)
        (λ q.
          handle_from-Ends errors max at left (suc k) (omega arith)
            (λ z. ap (λ i. retriable errors (at i)) same ∙ q))
    where
      same : suc k - 1 ≡ k
      same = omega arith

  -- The middleware makes at most the given number of requests; every request but the last failed
  -- with one of the errors to retry on; it succeeds exactly if the last request did, it passes an
  -- error on exactly if the last request failed with one that is not in its list, and it reports
  -- that the limit is reached only after all the requests failed with errors to retry on.
  pub handle-Ends :
      (errors : List String) (max : ℕ) (at : ℕ → Option String)
      → Ends (errors ++ internal_errors) at max 0 (handle errors max at)
  unfolding handle
  handle-Ends errors max at =
      handle_from-Ends (errors ++ internal_errors) max at max 0 (omega arith) (λ p. ground arith)
