-- ===== src/Adapter/Recovery.antt =====
-- packages/sdid-adapter/src/resilience.ts: calls of `execute` one after the other, through an outage
-- and after it.
use sdidfy.Prelude.{
  ℕ, zero, suc, ◌+◌, ◌≤◌, ◌≡◌, refl, ap, true, false, arith, Bool-cases, inl, inr, Result, ok, err,
  some,
}
use sdidfy.Adapter.Breaker.{
  CircuitBreaker, CircuitState, CircuitOpen, closed, opened, half_open, new_breaker, before_attempt,
  on_success, on_failure,
}
use sdidfy.Adapter.Execute.{
  Attempts, Outcome, returned, unknown_identity, misconfigured, SdidError, Run, settled, admitted,
  give_up, execute_from, execute, verdict,
}

-- The attempts of a call with at most `retries` retries that has ended by `until`.
pub record IsOrderly {A : Type 0} (s : Attempts A) (retries until : ℕ) : Type 0 where
  pub settles_by : (n : ℕ) → n ≤ retries → s.settles n ≤ until
  pub configured : (n : ℕ) → n ≤ retries → ¬ (s.answer n ≡ misconfigured)

-- What a breaker can be after calls that do not overlap, the last of which ended by `until`: each
-- attempt may fail, time out, answer invalidly, or succeed.
pub data CallsReach (A : Type 0) (threshold reset_ms : ℕ) : ℕ → CircuitBreaker → Type 0 where
  begun : CallsReach A threshold reset_ms 0 (new_breaker threshold reset_ms)
  called :
      {until : ℕ} {b : CircuitBreaker}
      → CallsReach A threshold reset_ms until b
      → (s : Attempts A) (retries later : ℕ) → until ≤ later
      → IsOrderly s retries later
      → CallsReach A threshold reset_ms later (execute s retries b).breaker

-- No probe is left in flight, and the circuit was opened by then if it is open.
pub record IsQuiet (reset_ms until : ℕ) (b : CircuitBreaker) : Type 0 where
  pub idle : b.probe_in_flight ≡ false
  pub decided : ¬ (b.internal ≡ half_open)
  pub opened_by : b.opened_at ≤ until
  pub resets : b.reset_ms ≡ reset_ms

on_success-IsQuiet :
    (reset_ms until : ℕ) (b : CircuitBreaker)
    → b.opened_at ≤ until
    → b.reset_ms ≡ reset_ms
    → IsQuiet reset_ms until (on_success b)
unfolding on_success
on_success-IsQuiet reset_ms until b o r = record {
  idle = refl;
  decided = λ h. cc;
  opened_by = o;
  resets = r;
}

on_failure-IsQuiet :
    (reset_ms until now : ℕ) (b : CircuitBreaker)
    → now ≤ until
    → b.opened_at ≤ until
    → b.reset_ms ≡ reset_ms
    → IsQuiet reset_ms until (on_failure b now)
unfolding on_failure
on_failure-IsQuiet reset_ms until now b n o r = ground arith

before_attempt-clock :
    (b c : CircuitBreaker) (now : ℕ)
    → before_attempt b now ≡ ok c
    → (c.opened_at ≡ b.opened_at) × (c.reset_ms ≡ b.reset_ms)
unfolding before_attempt
before_attempt-clock b c now e = (ground arith, ground arith)

module _ {A : Type 0} (s : Attempts A) (reset_ms until : ℕ) where
  settled-IsQuiet :
      (n : ℕ) (c : CircuitBreaker) (retry : SdidError → CircuitBreaker → Run A) (o : Outcome A)
      → ¬ (o ≡ misconfigured)
      → s.settles n ≤ until
      → c.opened_at ≤ until
      → c.reset_ms ≡ reset_ms
      → ((e : SdidError) (d : CircuitBreaker)
          → IsQuiet reset_ms until d
          → IsQuiet reset_ms until (retry e d).breaker)
      → IsQuiet reset_ms until (settled s n c retry o).breaker
  settled-IsQuiet n c retry (returned a) fit by o r more = elim (Bool-cases (s.valid a)) [
    | inl good ↦ rw good (on_success-IsQuiet reset_ms until c o r)
    | inr bad ↦ rw bad (more _ _ (on_failure-IsQuiet reset_ms until (s.settles n) c by o r))
  ]
  settled-IsQuiet n c retry unknown_identity fit by o r more =
      on_success-IsQuiet reset_ms until c o r
  settled-IsQuiet n c retry misconfigured fit by o r more = absurd (fit refl)
  settled-IsQuiet n c retry Outcome.fails fit by o r more =
      more _ _ (on_failure-IsQuiet reset_ms until (s.settles n) c by o r)

  admitted-IsQuiet :
      (n now : ℕ) (b : CircuitBreaker) (attempt : CircuitBreaker → Run A)
      (gate : Result CircuitOpen CircuitBreaker)
      → before_attempt b now ≡ gate
      → IsQuiet reset_ms until b
      → ((c : CircuitBreaker)
          → c.opened_at ≤ until
          → c.reset_ms ≡ reset_ms
          → IsQuiet reset_ms until (attempt c).breaker)
      → IsQuiet reset_ms until (admitted s n b attempt gate).breaker
  admitted-IsQuiet n now b attempt (err e) h q more = q
  admitted-IsQuiet n now b attempt (ok c) h q more =
      let (o, r) = before_attempt-clock b c now h in
      more c (omega (arith, q.opened_by)) (omega (arith, q.resets))

  execute_from-IsQuiet :
      (left n : ℕ) (b : CircuitBreaker)
      → ((k : ℕ) → k ≤ n + left → s.settles k ≤ until)
      → ((k : ℕ) → k ≤ n + left → ¬ (s.answer k ≡ misconfigured))
      → IsQuiet reset_ms until b
      → IsQuiet reset_ms until (execute_from s left n b).breaker
  unfolding execute_from
  execute_from-IsQuiet zero n b by fit q =
      admitted-IsQuiet n (s.starts n) b _ (before_attempt b (s.starts n)) refl q (λ c o r.
        settled-IsQuiet n c (give_up s n) (s.answer n) (fit n (omega arith)) (by n (omega arith)) o
          r (λ e d quiet. quiet))
  execute_from-IsQuiet (suc left) n b by fit q =
      admitted-IsQuiet n (s.starts n) b _ (before_attempt b (s.starts n)) refl q (λ c o r.
        settled-IsQuiet n c (λ e d. execute_from s left (n + 1) d) (s.answer n)
          (fit n (omega arith)) (by n (omega arith)) o r
          (λ e d quiet.
            execute_from-IsQuiet left (n + 1) d (λ k h. by k (omega arith))
              (λ k h. fit k (omega arith)) quiet))

-- Time passes.
later-IsQuiet :
    (reset_ms until later : ℕ) (b : CircuitBreaker)
    → until ≤ later
    → IsQuiet reset_ms until b
    → IsQuiet reset_ms later b
later-IsQuiet reset_ms until later b h q = record {
  idle = q.idle;
  decided = q.decided;
  opened_by = omega (arith, q.opened_by);
  resets = q.resets;
}

CallsReach-IsQuiet :
    {A : Type 0} {threshold reset_ms : ℕ} {until : ℕ} {b : CircuitBreaker}
    → CallsReach A threshold reset_ms until b
    → IsQuiet reset_ms until b
unfolding execute new_breaker
CallsReach-IsQuiet begun = record {
  idle = refl;
  decided = λ h. cc;
  opened_by = omega arith;
  resets = refl;
}
CallsReach-IsQuiet {A} {threshold} {reset_ms}
      (called {until} {b} before s retries later le orderly) =
    execute_from-IsQuiet s reset_ms later retries 0 b (λ k h. orderly.settles_by k (omega arith))
      (λ k h. orderly.configured k (omega arith))
      (later-IsQuiet reset_ms until later b le (CallsReach-IsQuiet before))

-- A round that is let through at a working strategy ends the call.
settled-recovers :
    {A : Type 0} (s : Attempts A) (n : ℕ) (c : CircuitBreaker)
    (retry : SdidError → CircuitBreaker → Run A) (o : Outcome A) (r : Result SdidError A)
    → verdict s o ≡ some r
    → ¬ (o ≡ misconfigured)
    → ((settled s n c retry o).result ≡ r)
      × ((settled s n c retry o).calls ≡ n + 1)
      × ((settled s n c retry o).breaker ≡ on_success c)
settled-recovers s n c retry (returned a) r v fit = ground arith
settled-recovers s n c retry unknown_identity r v fit = ground arith
settled-recovers s n c retry misconfigured r v fit = absurd (fit refl)
settled-recovers s n c retry Outcome.fails r v fit = cc

quiet-admits :
    (reset_ms until now : ℕ) (b : CircuitBreaker) (i : CircuitState)
    → b.internal ≡ i
    → IsQuiet reset_ms until b
    → until + reset_ms ≤ now
    → (c : CircuitBreaker) × (before_attempt b now ≡ ok c)
unfolding before_attempt
quiet-admits reset_ms until now b closed h q rested = (b, ground (arith, h))
quiet-admits reset_ms until now b opened h q rested = (
  record b { internal = half_open; probe_in_flight = true },
  ground (arith, h, q.idle, q.opened_by, q.resets),
)
quiet-admits reset_ms until now b half_open h q rested = absurd (q.decided h)

first_round-recovers :
    {A : Type 0} (s : Attempts A) (retries : ℕ) (b c : CircuitBreaker) (r : Result SdidError A)
    → before_attempt b (s.starts 0) ≡ ok c
    → verdict s (s.answer 0) ≡ some r
    → ¬ (s.answer 0 ≡ misconfigured)
    → ((execute_from s retries 0 b).result ≡ r)
      × ((execute_from s retries 0 b).calls ≡ 1)
      × ((execute_from s retries 0 b).breaker ≡ on_success c)
unfolding execute_from
first_round-recovers s zero b c r admits works fit =
    rw admits (settled-recovers s 0 c (give_up s 0) (s.answer 0) r works fit)
first_round-recovers s (suc left) b c r admits works fit =
    rw admits (settled-recovers s 0 c (λ e d. execute_from s left 1 d) (s.answer 0) r works fit)

-- Whatever failed before, once the reset time has passed since the last call ended, the next call
-- reaches SDID: where SDID works again, its first attempt gives the caller the verdict, and the
-- circuit is closed with no failures held against it. No call overlaps another, and none of the earlier
-- ones met a missing configuration.
pub execute-recovers :
    {A : Type 0} (threshold reset_ms until : ℕ) (b : CircuitBreaker)
    → CallsReach A threshold reset_ms until b
    → (s : Attempts A) (retries : ℕ) (r : Result SdidError A) → until + reset_ms ≤ s.starts 0
    → verdict s (s.answer 0) ≡ some r
    → ¬ (s.answer 0 ≡ misconfigured)
    → ((execute s retries b).result ≡ r)
      × ((execute s retries b).calls ≡ 1)
      × ((execute s retries b).breaker.internal ≡ closed)
      × ((execute s retries b).breaker.consecutive_failures ≡ 0)
unfolding execute on_success
execute-recovers threshold reset_ms until b before s retries r rested works fit =
    let (c, admits) =
      quiet-admits reset_ms until (s.starts 0) b b.internal refl (CallsReach-IsQuiet before)
        rested in
    let (result, calls, after) = first_round-recovers s retries b c r admits works fit in
    (
      result,
      calls,
      ap (λ (d : CircuitBreaker). d.internal) after,
      ap (λ (d : CircuitBreaker). d.consecutive_failures) after,
    )
