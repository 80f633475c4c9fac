-- ===== src/Broker/RateLimit/Windows.antt =====
-- What the fixed windows and the lockout of apps/broker/src/trust/rate-limit.service.ts allow.
use Prim.Native.Nat.{min}
use Prim.Native.String.{String, ◌++◌}
use sdidfy.Prelude.{
  ℕ, ◌+◌, ◌-◌, ◌*◌, ◌^◌, ◌≤◌, ◌<◌, ◌≡◌, none, some, List, [], ◌∷◌, Result, ok, err, arith, ltb,
  if◌then◌else◌, length, All,
}
use sdidfy.Shared.Errors.{Thrown, bridge_error, rate_limited, locked_out}
use sdidfy.Broker.Store.{entry, get, entry-set, entry-expire-set, get-del}
use sdidfy.Broker.Handler.{◌>>=◌}
use sdidfy.Broker.World.{World}
use sdidfy.Broker.RateLimit.{hit, record_failure, assert_not_locked_out, clear_failures}

abbrev pub passed : Result Thrown (Unit {0}) → ℕ
passed (ok _) = 1
passed (err _) = 0

module _ (key : String) (limit window_seconds : ℕ) where
  -- How many of the requests at these times go through.
  pub allowed : List ℕ → World → ℕ
  allowed [] w = 0
  allowed (t ∷ ts) w =
      passed (hit t key limit window_seconds w).0 + allowed ts (hit t key limit window_seconds w).1

  -- The counter stands at this value and lives until this time.
  abbrev Counts : ℕ → ℕ → World → Type 0
  Counts c dies w =
      (now : ℕ)
      → now < dies
      → entry now ("rl:" ++ key) w.counters
        ≡ some (record { key = "rl:" ++ key; value = c; dies_at = some dies })

  hit-first :
      (t : ℕ) (w : World)
      → entry t ("rl:" ++ key) w.counters ≡ none
      → ((hit t key limit window_seconds w).0
          ≡ (if ltb limit 1 then err (bridge_error rate_limited 429) else ok tt))
        × Counts 1 (t + window_seconds * 1000) (hit t key limit window_seconds w).1
  unfolding hit ◌>>=◌
  hit-first t w quiet = (
    ground (arith, quiet),
    λ now early. ground (
      arith,
      quiet,
      entry-expire-set now (t + window_seconds * 1000) ("rl:" ++ key) 1 none w.counters,
    ),
  )

  hit-next :
      (t c dies : ℕ) (w : World)
      → 0 < c
      → t < dies
      → Counts c dies w
      → ((hit t key limit window_seconds w).0
          ≡ (if ltb limit (c + 1) then err (bridge_error rate_limited 429) else ok tt))
        × Counts (c + 1) dies (hit t key limit window_seconds w).1
  unfolding hit ◌>>=◌
  hit-next t c dies w some_hits early counts = (
    ground (arith, counts t early),
    λ now soon.
        ground (arith, counts t early, entry-set now ("rl:" ++ key) (c + 1) (some dies) w.counters),
  )

  allowed-Counts :
      (ts : List ℕ) (c dies : ℕ) (w : World)
      → 0 < c
      → All (λ t. t < dies) ts
      → Counts c dies w
      → min limit c + allowed ts w ≡ min limit (c + length ts)
  unfolding allowed ◌>>=◌
  allowed-Counts [] c dies w some_hits early counts = ground arith
  allowed-Counts (t ∷ ts) c dies w some_hits (soon, early) counts =
      let (answer, more) = hit-next t c dies w some_hits soon counts in
      let rest =
        allowed-Counts ts (c + 1) dies (hit t key limit window_seconds w).1 (omega arith) early
          more in
      ground (arith, answer, rest)

  -- Of the requests that fall in one window, the first ones up to the limit go through and the rest
  -- are refused; the window is that of the first request, whatever came before it.
  pub allowed_lem :
      (t : ℕ) (ts : List ℕ) (w : World)
      → entry t ("rl:" ++ key) w.counters ≡ none
      → All (λ later. later < t + window_seconds * 1000) ts
      → allowed (t ∷ ts) w ≡ min limit (length (t ∷ ts))
  unfolding allowed ◌>>=◌
  allowed_lem t ts w quiet early =
      let (answer, counts) = hit-first t w quiet in
      let rest =
        allowed-Counts ts 1 (t + window_seconds * 1000) (hit t key limit window_seconds w).1
          (omega arith) early counts in
      ground (arith, answer, rest)

module _ (key : String) (max_failures window_seconds : ℕ) where
  -- The failure that makes up the maximum locks the key out, and each further one up to the fourth
  -- doubles the time for which it does.
  pub record_failure-locks :
      (t c dies later : ℕ) (w : World)
      → 0 < c
      → max_failures ≤ c + 1
      → entry t ("lockout:" ++ key) w.counters
        ≡ some (record { key = "lockout:" ++ key; value = c; dies_at = some dies })
      → (assert_not_locked_out later key max_failures
          (record_failure t key max_failures window_seconds w).1).0
        ≡ (if ltb later (t + window_seconds * 2 ^ min (c + 1 - max_failures) 4 * 1000)
            then err (bridge_error locked_out 429)
            else ok tt)
  unfolding record_failure assert_not_locked_out get ◌>>=◌
  record_failure-locks t c dies later w more enough counts = ground (
    arith,
    counts,
    entry-expire-set later (t + window_seconds * 2 ^ min (c + 1 - max_failures) 4 * 1000)
        ("lockout:" ++ key) (c + 1) (some dies) w.counters,
  )

  -- Clearing lets the key in again at once.
  pub clear_failures-unlocks :
      (later : ℕ) (w : World)
      → (assert_not_locked_out later key max_failures (clear_failures key w).1).0 ≡ ok tt
  unfolding clear_failures assert_not_locked_out ◌>>=◌
  clear_failures-unlocks later w = ground (arith, get-del later ("lockout:" ++ key) w.counters)
