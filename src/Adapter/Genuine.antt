-- ===== src/Adapter/Genuine.antt =====
-- packages/sdid-adapter/src/resilience.ts: where an answer of `execute` comes from.
use mathlib.Core.Path.{subst}
use sdidfy.Prelude.{
  ℕ, zero, suc, ◌+◌, ◌≤◌, ◌≡◌, refl, true, arith, Bool-cases, inl, inr, Result, ok, err,
  ok-injective,
}
use sdidfy.Adapter.Breaker.{CircuitBreaker, CircuitOpen, before_attempt, on_failure}
use sdidfy.Adapter.Execute.{
  Attempts, Outcome, returned, unknown_identity, misconfigured, fails, SdidError, malformed,
  unavailable, Run, settled, admitted, give_up, execute_from, execute,
}

module _ {A : Type 0} (s : Attempts A) where
  -- What a caller gets is what the last attempt made returned, and it passed validation.
  abbrev IsGenuine : ℕ → ℕ → Run A → Type 0
  IsGenuine left n run =
      (n ≤ run.calls)
      × (run.calls ≤ n + suc left)
      × ((a : A)
          → run.result ≡ ok a
          → (s.valid a ≡ true) × ((k : ℕ) × (run.calls ≡ k + 1) × (s.answer k ≡ returned a)))

  settled-IsGenuine :
      (left n : ℕ) (c : CircuitBreaker) (retry : SdidError → CircuitBreaker → Run A) (o : Outcome A)
      → s.answer n ≡ o
      → ((e : SdidError) (d : CircuitBreaker) → IsGenuine left n (retry e d))
      → IsGenuine left n (settled s n c retry o)
  settled-IsGenuine left n c retry (returned a) e more = elim (Bool-cases (s.valid a)) [
    | inl good ↦ rw good (
      omega arith,
      omega arith,
      λ x h.
          subst (λ x. (s.valid x ≡ true) × ((k : ℕ) × (n + 1 ≡ k + 1) × (s.answer k ≡ returned x)))
            (ok-injective h) (good, (n, refl, e)),
    )
    | inr bad ↦ rw bad (more malformed (on_failure c (s.settles n)))
  ]
  settled-IsGenuine left n c retry unknown_identity e more = (omega arith, omega arith, λ a h. cc)
  settled-IsGenuine left n c retry misconfigured e more = (omega arith, omega arith, λ a h. cc)
  settled-IsGenuine left n c retry fails e more = more unavailable (on_failure c (s.settles n))

  admitted-IsGenuine :
      (left n : ℕ) (b : CircuitBreaker) (attempt : CircuitBreaker → Run A)
      (gate : Result CircuitOpen CircuitBreaker)
      → ((c : CircuitBreaker) → IsGenuine left n (attempt c))
      → IsGenuine left n (admitted s n b attempt gate)
  admitted-IsGenuine left n b attempt (err e) more = (omega arith, omega arith, λ a h. cc)
  admitted-IsGenuine left n b attempt (ok c) more = more c

  execute_from-IsGenuine :
      (left n : ℕ) (b : CircuitBreaker) → IsGenuine left n (execute_from s left n b)
  unfolding execute_from
  execute_from-IsGenuine zero n b =
      admitted-IsGenuine zero n b (λ c. settled s n c (give_up s n) (s.answer n))
        (before_attempt b (s.starts n))
        (λ c.
          settled-IsGenuine zero n c (give_up s n) (s.answer n) refl
            (λ e d. (omega arith, omega arith, λ a h. cc)))
  execute_from-IsGenuine (suc left) n b =
      admitted-IsGenuine (suc left) n b _ (before_attempt b (s.starts n)) (λ c.
        settled-IsGenuine (suc left) n c (λ e d. execute_from s left (n + 1) d) (s.answer n) refl
          (λ e d.
            let (lo, hi, genuine) = execute_from-IsGenuine left (n + 1) d in
            (omega arith, omega arith, genuine)))

  -- At most `retries + 1` calls of the strategy are made, and a value that is returned is the answer
  -- of the last of them and passed the boundary validation.
  pub execute-genuine :
      (retries : ℕ) (b : CircuitBreaker)
      → ((execute s retries b).calls ≤ retries + 1)
        × ((a : A)
            → (execute s retries b).result ≡ ok a
            → (s.valid a ≡ true)
              × ((k : ℕ) × ((execute s retries b).calls ≡ k + 1) × (s.answer k ≡ returned a)))
  unfolding execute
  execute-genuine retries b =
      let (lo, hi, genuine) = execute_from-IsGenuine retries 0 b in (omega arith, genuine)
