-- ===== src/Adapter/Execute.antt =====
-- packages/sdid-adapter/src/resilience.ts: `ResilientSdidProvider.execute`. The strategy and the
-- clock are arguments: what the n-th attempt of a call does, and when it starts and settles. A
-- timeout, like any error that is neither of the two named, is `fails`.
use mathlib.Core.Path.{subst}
use sdidfy.Prelude.{
  ℕ, zero, suc, ◌+◌, ◌≤◌, ◌<◌, ◌≡◌, refl, Bool, true, false, arith, if◌then◌else◌, Result, ok, err,
  Option, none, some, ◌∙◌, ap,
}
use sdidfy.Adapter.Breaker.{
  CircuitBreaker, CircuitOpen, circuit_open, closed, opened, half_open, before_attempt, on_success,
  on_failure, one_failure, closed_admits,
}

pub data Outcome (A : Type 0) : Type 0 where
  returned : A → Outcome A
  unknown_identity : Outcome A
  misconfigured : Outcome A
  fails : Outcome A

pub data SdidError : Type 0 where
  identity_unknown configuration unavailable malformed refused_by_circuit : SdidError

pub record Attempts (A : Type 0) : Type 0 where
  pub valid : A → Bool
  pub answer : ℕ → Outcome A
  pub starts : ℕ → ℕ
  pub settles : ℕ → ℕ

-- How a call ends: its result, the breaker after it, and how often the strategy was called.
pub record Run (A : Type 0) : Type 0 where
  pub result : Result SdidError A
  pub breaker : CircuitBreaker
  pub calls : ℕ

module _ {A : Type 0} (s : Attempts A) where
  -- One round of the loop; `retry` is the next one, and `none` stands in the last round.
  abbrev pub settled : ℕ → CircuitBreaker → (SdidError → CircuitBreaker → Run A) → Outcome A → Run A
  settled n b retry (returned a) =
      if s.valid a
      then record { result = ok a; breaker = on_success b; calls = n + 1 }
      else retry malformed (on_failure b (s.settles n))
  settled n b retry unknown_identity = record {
    result = err identity_unknown;
    breaker = on_success b;
    calls = n + 1;
  }
  settled n b retry misconfigured = record {
    result = err configuration;
    breaker = b;
    calls = n + 1;
  }
  settled n b retry fails = retry unavailable (on_failure b (s.settles n))

  abbrev pub admitted :
      ℕ → CircuitBreaker → (CircuitBreaker → Run A) → Result CircuitOpen CircuitBreaker → Run A
  admitted n b attempt (err e) = record { result = err refused_by_circuit; breaker = b; calls = n }
  admitted n b attempt (ok c) = attempt c

  abbrev pub give_up : ℕ → SdidError → CircuitBreaker → Run A
  give_up n e b = record { result = err e; breaker = b; calls = n + 1 }

  -- The rounds `n`, `n + 1`, … of the loop, with `left` retries after this one.
  unfoldable pub execute_from : ℕ → ℕ → CircuitBreaker → Run A
  execute_from zero n b =
      admitted n b (λ c. settled n c (give_up n) (s.answer n)) (before_attempt b (s.starts n))
  execute_from (suc left) n b =
      admitted n b (λ c. settled n c (λ e d. execute_from left (n + 1) d) (s.answer n))
        (before_attempt b (s.starts n))

  unfoldable pub execute : ℕ → CircuitBreaker → Run A
  unfolding execute_from
  execute retries b = execute_from retries 0 b

  -- The outcomes that end a call at once.
  abbrev pub verdict : Outcome A → Option (Result SdidError A)
  verdict (returned a) = if s.valid a then some (ok a) else none
  verdict unknown_identity = some (err identity_unknown)
  verdict misconfigured = some (err configuration)
  verdict fails = none

  abbrev pub EndsWith : ℕ → Result SdidError A → Run A → Type 0
  EndsWith n r run = (run.result ≡ r) × (run.calls ≡ n + 1) × (run.breaker.internal ≡ closed)

  settled-EndsWith :
      (n : ℕ) (c : CircuitBreaker) (retry : SdidError → CircuitBreaker → Run A) (o : Outcome A)
      (r : Result SdidError A)
      → c.internal ≡ closed
      → verdict o ≡ some r
      → EndsWith n r (settled n c retry o)
  unfolding on_success
  settled-EndsWith n c retry (returned a) r h v = ground arith
  settled-EndsWith n c retry unknown_identity r h v = ground arith
  settled-EndsWith n c retry misconfigured r h v = ground arith
  settled-EndsWith n c retry fails r h v = cc

  first_round :
      (left n : ℕ) (b : CircuitBreaker) (r : Result SdidError A)
      → b.internal ≡ closed
      → verdict (s.answer n) ≡ some r
      → EndsWith n r (execute_from left n b)
  unfolding execute_from
  first_round zero n b r h v =
      rw (closed_admits b (s.starts n) h) (settled-EndsWith n b (give_up n) (s.answer n) r h v)
  first_round (suc left) n b r h v =
      rw (closed_admits b (s.starts n) h)
        (settled-EndsWith n b (λ e d. execute_from left (n + 1) d) (s.answer n) r h v)

  retried :
      (left n : ℕ) (b : CircuitBreaker)
      → b.internal ≡ closed
      → s.answer n ≡ fails
      → execute_from (suc left) n b ≡ execute_from left (n + 1) (on_failure b (s.settles n))
  unfolding execute_from
  retried left n b h e = rw (closed_admits b (s.starts n) h, e) refl

  execute_from-EndsWith :
      (k left n : ℕ) (b : CircuitBreaker) (r : Result SdidError A)
      → k ≤ left
      → b.internal ≡ closed
      → b.consecutive_failures + k < b.threshold
      → ((i : ℕ) → i < k → s.answer (n + i) ≡ fails)
      → verdict (s.answer (n + k)) ≡ some r
      → EndsWith (n + k) r (execute_from left n b)
  execute_from-EndsWith zero left n b r le h room failed v =
      subst (λ (m : ℕ). EndsWith m r (execute_from left n b)) (omega arith)
        (first_round left n b r h (ap (λ (m : ℕ). verdict (s.answer m)) (omega arith) ∙ v))
  execute_from-EndsWith (suc k) zero n b r le h room failed v = absurd (omega arith)
  execute_from-EndsWith (suc k) (suc left) n b r le h room failed v =
      let now : ℕ = s.settles n in
      let (same, low, _) = one_failure b now h in
      let (h', count) = low (omega arith) in
      let first : s.answer n ≡ fails = ap s.answer (omega arith) ∙ failed 0 (omega arith) in
      let shift : n + suc k ≡ (n + 1) + k = omega arith in
      rw (retried left n b h first, shift)
        (execute_from-EndsWith k left (n + 1) (on_failure b now) r (omega arith) h' (omega arith)
          (λ i lt. ap s.answer (omega arith) ∙ failed (suc i) (omega arith))
          (ap (λ (m : ℕ). verdict (s.answer m)) (omega arith) ∙ v))

  -- While the circuit has room for the failures before it, the first attempt that returns a valid
  -- value, finds the identity unknown or finds a missing configuration ends the call: its verdict is
  -- the result, nothing is retried after it, and the circuit is left closed.
  pub execute-first_verdict :
      (k retries : ℕ) (b : CircuitBreaker) (r : Result SdidError A)
      → k ≤ retries
      → b.internal ≡ closed
      → b.consecutive_failures + k < b.threshold
      → ((i : ℕ) → i < k → s.answer i ≡ fails)
      → verdict (s.answer k) ≡ some r
      → ((execute retries b).result ≡ r)
        × ((execute retries b).calls ≡ k + 1)
        × ((execute retries b).breaker.internal ≡ closed)
  unfolding execute
  execute-first_verdict k retries b r le h room failed v =
      let (result, calls, c) =
        execute_from-EndsWith k retries 0 b r le h room
          (λ i lt. ap s.answer (omega arith) ∙ failed i lt)
          (ap (λ (m : ℕ). verdict (s.answer m)) (omega arith) ∙ v) in
      (result, omega arith, c)

  misconfigured_probe :
      (left : ℕ) (b : CircuitBreaker)
      → b.internal ≡ opened
      → b.opened_at + b.reset_ms ≤ s.starts 0
      → b.probe_in_flight ≡ false
      → s.answer 0 ≡ misconfigured
      → (execute_from left 0 b).breaker ≡ record b { internal = half_open; probe_in_flight = true }
  unfolding execute_from before_attempt
  misconfigured_probe zero b o elapsed quiet e = ground arith
  misconfigured_probe (suc left) b o elapsed quiet e = ground arith

  -- A half-open probe that ends in a configuration error leaves the probe marked as in flight: after
  -- it the circuit refuses every attempt, at whatever time, until some other call succeeds or fails.
  pub execute-wedged :
      (retries : ℕ) (b : CircuitBreaker) (later : ℕ)
      → b.internal ≡ opened
      → b.opened_at + b.reset_ms ≤ s.starts 0
      → b.probe_in_flight ≡ false
      → s.answer 0 ≡ misconfigured
      → before_attempt (execute retries b).breaker later ≡ err circuit_open
  unfolding execute before_attempt
  execute-wedged retries b later o elapsed quiet e =
      rw (misconfigured_probe retries b o elapsed quiet e) refl
