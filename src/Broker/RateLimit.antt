-- ===== src/Broker/RateLimit.antt =====
-- apps/broker/src/trust/rate-limit.service.ts.
pub mod Windows
use Prim.Native.Nat.{min}
use Prim.Native.String.{String, ◌++◌}
use sdidfy.Prelude.{
  ℕ, ◌+◌, ◌-◌, ◌*◌, ◌^◌, Bool, true, false, Option, none, some, ok, ltb, leb, ◌==◌, if◌then◌else◌,
}
use sdidfy.Shared.Errors.{rate_limited, locked_out}
use sdidfy.Broker.Store.{Kept, entry, get, set, del, expire}
use sdidfy.Broker.World.{World}
use sdidfy.Broker.Handler.{Handler, ◌>>=◌, ◌>>◌, pure, refuse_if, gets, modify}

abbrev pub bumped : String → Option (Kept ℕ) → Kept ℕ
bumped key none = record { key = key; value = 1; dies_at = none }
bumped key (some e) = record { key = key; value = e.value + 1; dies_at = e.dies_at }

-- `redis.client.incr(key)`: a new counter has no expiry, an old one keeps its own.
abbrev pub incr : ℕ → String → Handler ℕ
incr now key w =
    let e = bumped key (entry now key w.counters) in
    (ok e.value, record w { counters = set key e.value e.dies_at w.counters })

-- `if (test) await this.redis.client.expire(key, seconds)`
abbrev pub expire_if : Bool → ℕ → String → ℕ → Handler (Unit {0})
expire_if false now key seconds w = (ok tt, w)
expire_if true now key seconds w =
    (ok tt, record w { counters = expire key (now + seconds * 1000) w.counters })

unfoldable pub hit : ℕ → String → ℕ → ℕ → Handler (Unit {0})
hit now key limit window_seconds = do
  let redis_key = "rl:" ++ key
  count ← incr now redis_key
  expire_if (count == 1) now redis_key window_seconds
  refuse_if (ltb limit count) rate_limited 429

unfoldable pub record_failure : ℕ → String → ℕ → ℕ → Handler (Unit {0})
record_failure now key max_failures window_seconds = do
  let redis_key = "lockout:" ++ key
  count ← incr now redis_key
  expire_if (count == 1) now redis_key window_seconds
  expire_if (leb max_failures count) now redis_key
      (window_seconds * 2 ^ min (count - max_failures) 4)

abbrev pub reaches : ℕ → Option ℕ → Bool
reaches max_failures none = false
reaches max_failures (some count) = leb max_failures count

unfoldable pub assert_not_locked_out : ℕ → String → ℕ → Handler (Unit {0})
assert_not_locked_out now key max_failures = do
  count ← gets (λ w. get now ("lockout:" ++ key) w.counters)
  refuse_if (reaches max_failures count) locked_out 429

unfoldable pub clear_failures : String → Handler (Unit {0})
clear_failures key = modify (λ w. record w { counters = del ("lockout:" ++ key) w.counters })
