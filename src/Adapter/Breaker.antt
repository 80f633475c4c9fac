-- ===== src/Adapter/Breaker.antt =====
-- packages/sdid-adapter/src/resilience.ts: `CircuitBreaker`. The clock is an argument of each call.
use sdidfy.Prelude.{
  ℕ, zero, suc, ◌+◌, ◌≤◌, ◌<◌, ◌≡◌, ◌↔◌, refl, Bool, true, false, arith, leb, if◌then◌else◌, ◌⊎◌,
  Result, ok, err,
}

pub data CircuitState : Type 0 where
  closed opened half_open : CircuitState

pub record CircuitBreaker : Type 0 where
  pub threshold : ℕ
  pub reset_ms : ℕ
  pub internal : CircuitState
  pub consecutive_failures : ℕ
  pub opened_at : ℕ
  pub probe_in_flight : Bool

pub data CircuitOpen : Type 0 where
  circuit_open : CircuitOpen

unfoldable pub new_breaker : ℕ → ℕ → CircuitBreaker
new_breaker threshold reset_ms = record {
  threshold = threshold;
  reset_ms = reset_ms;
  internal = closed;
  consecutive_failures = 0;
  opened_at = 0;
  probe_in_flight = false;
}

-- `Date.now() - this.openedAt >= this.resetMs`
abbrev pub shown : CircuitState → Bool → CircuitState
shown opened elapsed = if elapsed then half_open else opened
shown closed elapsed = closed
shown half_open elapsed = half_open

unfoldable pub state : CircuitBreaker → ℕ → CircuitState
state b now = shown b.internal (leb (b.opened_at + b.reset_ms) now)

abbrev gate : CircuitBreaker → CircuitState → Result CircuitOpen CircuitBreaker
gate b opened = err circuit_open
gate b half_open =
    if b.probe_in_flight
    then err circuit_open
    else ok (record b { internal = half_open; probe_in_flight = true })
gate b closed = ok b

unfoldable pub before_attempt : CircuitBreaker → ℕ → Result CircuitOpen CircuitBreaker
unfolding state
before_attempt b now = gate b (state b now)

unfoldable pub on_success : CircuitBreaker → CircuitBreaker
on_success b = record b { internal = closed; consecutive_failures = 0; probe_in_flight = false }

unfoldable pub trip : CircuitBreaker → ℕ → CircuitBreaker
trip b now = record b { internal = opened; opened_at = now; consecutive_failures = 0 }

abbrev settle : CircuitBreaker → CircuitState → ℕ → CircuitBreaker
settle b half_open now = trip (record b { probe_in_flight = false }) now
settle b _ now =
    let failed = record b {
      probe_in_flight = false;
      consecutive_failures = b.consecutive_failures + 1;
    } in
    if leb b.threshold (b.consecutive_failures + 1) then trip failed now else failed

unfoldable pub on_failure : CircuitBreaker → ℕ → CircuitBreaker
unfolding trip
on_failure b now = settle b b.internal now

-- What the calls of `execute` do to the breaker, in any order and interleaving.
pub data BreakerStep : CircuitBreaker → CircuitBreaker → Type 0 where
  admits : {b c : CircuitBreaker} (now : ℕ) → before_attempt b now ≡ ok c → BreakerStep b c
  succeeds : (b : CircuitBreaker) → BreakerStep b (on_success b)
  fails : (b : CircuitBreaker) (now : ℕ) → BreakerStep b (on_failure b now)

pub data BreakerReach (b : CircuitBreaker) : CircuitBreaker → Type 0 where
  here : BreakerReach b b
  next : {c d : CircuitBreaker} → BreakerReach b c → BreakerStep c d → BreakerReach b d

-- A probe is in flight exactly while the circuit is half-open, and fewer failures than the
-- threshold are held against it.
pub record IsConsistent (b : CircuitBreaker) : Type 0 where
  pub probing : (b.internal ≡ half_open) ↔ (b.probe_in_flight ≡ true)
  pub below : b.consecutive_failures < b.threshold

new_breaker-IsConsistent :
    (threshold reset_ms : ℕ) → 0 < threshold → IsConsistent (new_breaker threshold reset_ms)
unfolding new_breaker
new_breaker-IsConsistent threshold reset_ms h = record { probing = ground arith; below = h }

module _ (b : CircuitBreaker) where
  admits-IsConsistent :
      (c : CircuitBreaker) (now : ℕ) → before_attempt b now ≡ ok c → IsConsistent b → IsConsistent c
  unfolding before_attempt
  admits-IsConsistent c now e v = ground arith

  on_success-IsConsistent : IsConsistent b → IsConsistent (on_success b)
  unfolding on_success
  on_success-IsConsistent v = record { probing = ground arith; below = omega (arith, v.below) }

on_failure-IsConsistent :
    (b : CircuitBreaker) (now : ℕ) → IsConsistent b → IsConsistent (on_failure b now)
unfolding on_failure
on_failure-IsConsistent b now v = ground arith

BreakerStep-IsConsistent :
    {b c : CircuitBreaker} → BreakerStep b c → IsConsistent b → IsConsistent c
BreakerStep-IsConsistent (admits {b} {c} now e) v = admits-IsConsistent b c now e v
BreakerStep-IsConsistent (succeeds b) v = on_success-IsConsistent b v
BreakerStep-IsConsistent (fails b now) v = on_failure-IsConsistent b now v

-- In every state that calls can reach, in any order and overlap, a probe is in flight exactly
-- while the circuit is half-open, and the failures counted are fewer than the threshold.
pub BreakerReach-IsConsistent :
    (threshold reset_ms : ℕ) (b : CircuitBreaker)
    → 0 < threshold
    → BreakerReach (new_breaker threshold reset_ms) b
    → IsConsistent b
BreakerReach-IsConsistent threshold reset_ms b h r = go r
  where
    go : {c : CircuitBreaker} → BreakerReach (new_breaker threshold reset_ms) c → IsConsistent c
    go here = new_breaker-IsConsistent threshold reset_ms h
    go (next r st) = BreakerStep-IsConsistent st (go r)

abbrev pub lets_through : Result CircuitOpen CircuitBreaker → Bool
lets_through (ok b) = true
lets_through (err e) = false

-- An attempt is let through exactly when the circuit is closed, or its time is up and no probe is
-- in flight; so of two attempts at a half-open circuit the second is refused.
pub before_attempt_iff :
    (b : CircuitBreaker) (now : ℕ)
    → IsConsistent b
    → (lets_through (before_attempt b now) ≡ true)
      ↔ ((b.internal ≡ closed) ⊎ ((b.internal ≡ opened) × (b.opened_at + b.reset_ms ≤ now)))
unfolding before_attempt
before_attempt_iff b now v = ground arith

-- Repeated failures with no success between.
pub fail_times : ℕ → CircuitBreaker → ℕ → CircuitBreaker
fail_times zero b now = b
fail_times (suc n) b now = fail_times n (on_failure b now) now

-- One failure short of the threshold keeps the circuit closed, and the one that meets it opens it.
pub one_failure :
    (b : CircuitBreaker) (now : ℕ)
    → b.internal ≡ closed
    → ((on_failure b now).threshold ≡ b.threshold)
      × (b.consecutive_failures + 1 < b.threshold
          → ((on_failure b now).internal ≡ closed)
            × ((on_failure b now).consecutive_failures ≡ b.consecutive_failures + 1))
      × (b.threshold ≤ b.consecutive_failures + 1
          → ((on_failure b now).internal ≡ opened) × ((on_failure b now).opened_at ≡ now))
unfolding on_failure
one_failure b now c = (ground arith, ground arith, ground arith)

-- The circuit stays closed while the failures in a row are fewer than the threshold.
fail_times_below :
    (n : ℕ) (b : CircuitBreaker) (now : ℕ)
    → b.internal ≡ closed
    → b.consecutive_failures + n < b.threshold
    → ((fail_times n b now).internal ≡ closed)
      × ((fail_times n b now).consecutive_failures ≡ b.consecutive_failures + n)
      × ((fail_times n b now).threshold ≡ b.threshold)
unfolding fail_times
fail_times_below zero b now c h = (c, omega arith, refl)
fail_times_below (suc n) b now c h =
    let (same, low, _) = one_failure b now c in
    let (c', count) = low (omega arith) in
    let (i, f, t) = fail_times_below n (on_failure b now) now c' (omega arith) in
    (i, omega arith, omega arith)

-- From a closed circuit with no failures held against it, fewer failures in a row than the threshold
-- leave it closed, and the next one that makes up the threshold opens it at that moment.
pub fail_times-opens :
    (n : ℕ) (b : CircuitBreaker) (now : ℕ)
    → b.internal ≡ closed
    → b.consecutive_failures ≡ 0
    → suc n ≡ b.threshold
    → ((fail_times n b now).internal ≡ closed)
      × ((on_failure (fail_times n b now) now).internal ≡ opened)
      × ((on_failure (fail_times n b now) now).opened_at ≡ now)
fail_times-opens n b now c fresh exact =
    let (i, f, t) = fail_times_below n b now c (omega arith) in
    let (_, _, high) = one_failure (fail_times n b now) now i in
    let (o, a) = high (omega arith) in (i, o, a)

pub closed_admits :
    (b : CircuitBreaker) (now : ℕ) → b.internal ≡ closed → before_attempt b now ≡ ok b
unfolding before_attempt
closed_admits b now h = ground arith
