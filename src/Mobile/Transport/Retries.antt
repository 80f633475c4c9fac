-- ===== src/Mobile/Transport/Retries.antt =====
-- transport.ts: how often a call is sent, which answer it comes to, and how long it waits.
use sdidfy.Prelude.{ℕ, suc, ◌+◌, ◌≤◌, ◌<◌, ◌≡◌, Bool, true, false, All}
use sdidfy.Mobile.Transport.{
  Arrival, responded, failed, threw, Idempotency, safe, consumes_nonce, RetryPolicy,
  is_retryable_status, Sent, last_attempt,
}

-- What the client may repeat: a gateway's answer, and for a safe call also no answer.
abbrev pub may_repeat : Idempotency → Arrival → Bool
may_repeat idempotency (responded r) = is_retryable_status r.status
may_repeat idempotency threw = false
may_repeat safe (failed kind) = true
may_repeat consumes_nonce (failed kind) = false

-- The attempts count from `first`, and `most` is how many there may be.
pub record Retried (idempotency : Idempotency) (policy : RetryPolicy) (send : ℕ → Arrival)
    (first most : ℕ) (sent : Sent) : Type 0 where
  pub some_sent : 1 ≤ sent.sends
  pub few_sent : sent.sends ≤ most
  pub last_counts :
      (k : ℕ)
      → suc k ≡ sent.sends
      → sent.outcome ≡ (last_attempt idempotency (send (first + k))).outcome
  pub others_repeat :
      (k : ℕ) → suc k < sent.sends → may_repeat idempotency (send (first + k)) ≡ true
  pub short_waits : All (λ (delay : ℕ). delay ≤ policy.max_delay_ms) sent.waits
