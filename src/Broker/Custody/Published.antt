-- ===== src/Broker/Custody/Published.antt =====
-- adapter-custody.ts: what stands in the JWKS, whatever a backend answers and however often it changes.
use Prim.Native.String.{String}
use sdidfy.Prelude.{Bool, true, false, not, [], Option, none, some, Result, ok, err, if◌then◌else◌}
use sdidfy.Broker.Custody.{
  CustodyError, unavailable, Rotated, RemoteCustodyAdapter, CachedKey, Custody, cached, reload,
  after_init, init, sign_found, after_refresh, custody_sign, is_unhealthy, health_of, health_check,
  after_rotation, rotate_by, custody_rotate, close,
}
use sdidfy.Broker.Custody.Loaded.{Publishes, empty-IsPublished, reload-Publishes}

-- The calls of the boundary, each with the backend as it is at that moment.
pub data CustodyStep (s : Custody) : Custody → Type 0 where
  inits : (adapter : RemoteCustodyAdapter) → CustodyStep s (init adapter s).1
  signs :
      (adapter : RemoteCustodyAdapter) (kid payload : String)
      → CustodyStep s (custody_sign adapter kid payload s).1
  checks_health : (adapter : RemoteCustodyAdapter) → CustodyStep s (health_check adapter s).1
  rotates : (adapter : RemoteCustodyAdapter) → CustodyStep s (custody_rotate adapter s).1
  closes : CustodyStep s (close s)

abbrev pub new_custody : Custody
new_custody = record { is_built = false; keys = []; active_key = none; events = [] }

pub data CustodyReach : Custody → Type 0 where
  built : CustodyReach new_custody
  later : {s t : Custody} → CustodyReach s → CustodyStep s t → CustodyReach t

if-Publishes :
    {A : Type 0} (test : Bool) (x y : A × Custody)
    → Publishes x.1
    → Publishes y.1
    → Publishes (if test then x else y).1
if-Publishes true x y hx hy = hx
if-Publishes false x y hx hy = hy

module _ (adapter : RemoteCustodyAdapter) where
  init-Publishes : (s : Custody) → Publishes s → Publishes (init adapter s).1
  unfolding init
  init-Publishes s h =
      go (reload adapter (record s { is_built = true }))
        (reload-Publishes adapter (record s { is_built = true }) h)
    where
      go :
          (r : Result CustodyError (Unit {0}) × Custody)
          → Publishes r.1
          → Publishes (after_init r).1
      go (ok done, t) g = g
      go (err e, t) g = g

  custody_sign-Publishes :
      (kid payload : String) (s : Custody)
      → Publishes s
      → Publishes (custody_sign adapter kid payload s).1
  unfolding custody_sign
  custody_sign-Publishes kid payload s h =
      if-Publishes s.is_built (sign_found adapter kid payload (cached kid s.keys) s)
        (err unavailable, s) (found (cached kid s.keys)) h
    where
      go :
          (r : Result CustodyError (Unit {0}) × Custody)
          → Publishes r.1
          → Publishes (after_refresh adapter kid payload r).1
      go (ok done, t) g = g
      go (err e, t) g = g

      found : (o : Option CachedKey) → Publishes (sign_found adapter kid payload o s).1
      found none = go (reload adapter s) (reload-Publishes adapter s h)
      found (some c) = h

  pub health_check-Publishes : (s : Custody) → Publishes s → Publishes (health_check adapter s).1
  unfolding health_check
  health_check-Publishes s h =
      let asked =
        if is_unhealthy adapter.health then (false, s) else health_of (reload adapter s) in
      if-Publishes (not s.is_built) (false, s) asked h
        (if-Publishes (is_unhealthy adapter.health) (false, s) (health_of (reload adapter s)) h
          (go (reload adapter s) (reload-Publishes adapter s h)))
    where
      go :
          (r : Result CustodyError (Unit {0}) × Custody) → Publishes r.1 → Publishes (health_of r).1
      go (ok done, t) g = g
      go (err e, t) g = g

  custody_rotate-Publishes : (s : Custody) → Publishes s → Publishes (custody_rotate adapter s).1
  unfolding custody_rotate
  custody_rotate-Publishes s h =
      if-Publishes s.is_built (rotate_by adapter adapter.rotate_remote s) (err unavailable, s)
        (rotated adapter.rotate_remote) h
    where
      go :
          (result : Rotated) (r : Result CustodyError (Unit {0}) × Custody)
          → Publishes r.1
          → Publishes (after_rotation result r).1
      go result (ok done, t) g = g
      go result (err e, t) g = g

      rotated : (o : Option (Result CustodyError Rotated)) → Publishes (rotate_by adapter o s).1
      rotated none = h
      rotated (some (err e)) = h
      rotated (some (ok result)) = go result (reload adapter s) (reload-Publishes adapter s h)

step-Publishes : (s t : Custody) → CustodyStep s t → Publishes s → Publishes t
unfolding close
step-Publishes s t (inits adapter) h = init-Publishes adapter s h
step-Publishes s t (signs adapter kid payload) h = custody_sign-Publishes adapter kid payload s h
step-Publishes s t (checks_health adapter) h = health_check-Publishes adapter s h
step-Publishes s t (rotates adapter) h = custody_rotate-Publishes adapter s h
step-Publishes s t closes h = empty-IsPublished

-- Whatever the backend answers from call to call, also where it fails half way: the key that is active
-- is one of those that are published, and each published key carries the identifier that it stands
-- under and the use `sig`, and no private member.
pub CustodyReach-Publishes : (s : Custody) → CustodyReach s → Publishes s
CustodyReach-Publishes s built = empty-IsPublished
CustodyReach-Publishes t (later {s} reach step) =
    step-Publishes s t step (CustodyReach-Publishes s reach)
