-- ===== src/Adapter/Tests.antt =====
-- Runs of packages/sdid-adapter/src/resilience.ts at concrete inputs.
use sdidfy.Prelude.{ℕ, ◌≡◌, refl, true, false, ◌<◌, ok, err, arith, zero, suc}
use sdidfy.Adapter.Breaker.{
  CircuitBreaker, closed, opened, new_breaker, BreakerReach, here, next, fails, IsConsistent,
  before_attempt, on_failure, circuit_open,
}
use sdidfy.Adapter.Execute.{
  Attempts, Outcome, returned, misconfigured, execute, execute_from, execute-wedged,
}
use sdidfy.Adapter.Recovery.{CallsReach, begun, called, IsOrderly, execute-recovers}

abbrev fresh : CircuitBreaker
fresh = record {
  threshold = 2;
  reset_ms = 10;
  internal = closed;
  consecutive_failures = 0;
  opened_at = 0;
  probe_in_flight = false;
}

abbrev tripped : CircuitBreaker
tripped = record fresh { internal = opened; opened_at = 5 }

two_failures : BreakerReach (new_breaker 2 10) (on_failure (on_failure (new_breaker 2 10) 4) 5)
two_failures = next (next here (fails _ 4)) (fails _ 5)

tripped-IsConsistent : IsConsistent tripped
tripped-IsConsistent = record { probing = ((λ h. cc), (λ h. cc)); below = omega arith }

abbrev nth_answer : ℕ → Outcome ℕ
nth_answer zero = Outcome.fails
nth_answer (suc n) = returned 7

abbrev second_works : Attempts ℕ
second_works = record { valid = λ n. true; answer = nth_answer; starts = λ n. n; settles = λ n. n }

abbrev gap : Attempts ℕ
gap = record { valid = λ n. true; answer = λ n. misconfigured; starts = λ n. 20; settles = λ n. 20 }

only_first : (i : ℕ) → i < 1 → second_works.answer i ≡ Outcome.fails
only_first zero h = refl
only_first (suc i) h = absurd (omega arith)

execute-wedged_example : before_attempt (execute gap 2 tripped).breaker 1000 ≡ err circuit_open
execute-wedged_example = execute-wedged gap 2 tripped 1000 refl (omega arith) refl refl

abbrev outage : Attempts ℕ
outage = record {
  valid = λ n. true;
  answer = λ n. Outcome.fails;
  starts = λ n. 4;
  settles = λ n. 5;
}

abbrev works_again : Attempts ℕ
works_again = record outage { answer = λ n. returned 7; starts = λ n. 15 }

outage-IsOrderly : IsOrderly outage 1 5
outage-IsOrderly = record { settles_by = λ n h. omega arith; configured = λ n h e. cc }

after_outage : CallsReach ℕ 2 10 5 (execute outage 1 (new_breaker 2 10)).breaker
after_outage = called begun outage 1 5 (omega arith) outage-IsOrderly

outage_opens : (execute outage 1 (new_breaker 2 10)).breaker.internal ≡ opened
unfolding execute execute_from new_breaker before_attempt on_failure
outage_opens = refl

execute-recovers_example :
    ((execute works_again 1 (execute outage 1 (new_breaker 2 10)).breaker).result ≡ ok 7)
    × ((execute works_again 1 (execute outage 1 (new_breaker 2 10)).breaker).calls ≡ 1)
    × ((execute works_again 1 (execute outage 1 (new_breaker 2 10)).breaker).breaker.internal
        ≡ closed)
    × ((execute works_again 1
          (execute outage 1 (new_breaker 2 10)).breaker).breaker.consecutive_failures
        ≡ 0)
execute-recovers_example =
    execute-recovers 2 10 5 (execute outage 1 (new_breaker 2 10)).breaker after_outage works_again 1
      (ok 7) (omega arith) refl (λ e. cc)
