-- ===== src/Broker/Custody.antt =====
-- apps/broker/src/keys/adapter-custody.ts. The adapter of a deployment is a parameter, as it answers at
-- the time of the call. The conversion of a DER key is part of its answer, that of a signature is in
-- Jose; the details of a health report are left out.
pub mod Loaded
pub mod Known
pub mod Published
use Prim.Native.String.{String}
use sdidfy.Prelude.{
  ℕ, Bool, true, false, not, ◌&&◌, List, [], ◌∷◌, Option, none, some, Result, ok, err, ◌>>=◌, same,
  if◌then◌else◌,
}
use sdidfy.Broker.Jose.{
  SignatureError, Decoded, normalize_ecdsa_signature, assert_jws_signature_shape,
}

pub record RemoteKey : Type 0 where
  pub kid : String
  pub alg : String
  pub is_active : Bool

pub record PublicJwk : Type 0 where
  pub kid : String
  pub alg : String
  pub use_of : Option String
  pub point : String
  -- The private member, where a backend hands one out.
  pub d : Option String

pub data CustodyError : Type 0 where
  unavailable signing_refused rotation_unsupported backend_failed : CustodyError
  bad_signature : SignatureError → CustodyError

pub record Rotated : Type 0 where
  pub promoted_kid : String
  pub retired_kids : List String

pub record RemoteCustodyAdapter : Type 0 where
  pub list_keys : Result CustodyError (List RemoteKey)
  pub get_public_key : RemoteKey → Result CustodyError PublicJwk
  pub sign_remote : RemoteKey → String → Result CustodyError (List ℕ)
  pub rotate_remote : Option (Result CustodyError Rotated)
  pub health : Option (Result CustodyError Bool)

pub record CachedKey : Type 0 where
  pub remote : RemoteKey
  pub public_jwk : PublicJwk

pub data CustodyEvent : Type 0 where
  key_retired key_promoted : String → CustodyEvent

pub record Custody : Type 0 where
  pub is_built : Bool
  pub keys : List (String × CachedKey)
  pub active_key : Option String
  pub events : List CustodyEvent

unfoldable pub cached : String → List (String × CachedKey) → Option CachedKey
cached kid [] = none
cached kid ((k, c) ∷ ks) = if same k kid then some c else cached kid ks

unfoldable pub cache : String → CachedKey → List (String × CachedKey) → List (String × CachedKey)
cache kid c [] = (kid, c) ∷ []
cache kid c ((k, old) ∷ ks) =
    let rest = cache kid c ks in if same k kid then (k, c) ∷ ks else (k, old) ∷ rest

unfoldable pub to_public_jwk : PublicJwk → RemoteKey → PublicJwk
to_public_jwk material remote = record material {
  kid = remote.kid;
  alg = remote.alg;
  use_of = some "sig";
  d = none;
}

abbrev pub is_unset : Option String → Bool
is_unset none = true
is_unset (some kid) = false

abbrev pub first_active : RemoteKey → Option String → Option String
first_active remote active = if remote.is_active && is_unset active then some remote.kid else active

-- The loop of `reload`.
unfoldable pub load_each :
    RemoteCustodyAdapter
    → List RemoteKey
    → List (String × CachedKey)
    → Option String
    → Result CustodyError (List (String × CachedKey) × Option String)
unfolding to_public_jwk cache
load_each adapter [] keys active = ok (keys, active)
load_each adapter (remote ∷ remotes) keys active = adapter.get_public_key remote >>= λ material.
    load_each adapter remotes
      (cache remote.kid (record { remote = remote; public_jwk = to_public_jwk material remote })
        keys)
      (first_active remote active)

abbrev pub with_keys :
    Result CustodyError (List (String × CachedKey) × Option String)
    → Custody
    → Result CustodyError (Unit {0}) × Custody
with_keys (ok (keys, active)) s = (ok tt, record s { keys = keys; active_key = active })
with_keys (err e) s = (err e, s)

unfoldable pub reload : RemoteCustodyAdapter → Custody → Result CustodyError (Unit {0}) × Custody
unfolding load_each
reload adapter s = with_keys (adapter.list_keys >>= λ remotes. load_each adapter remotes [] none) s

abbrev pub active_or_refuse : Custody → Result CustodyError String
active_or_refuse s = elim s.active_key [ none ↦ err unavailable | some kid ↦ ok kid ]

abbrev pub after_init :
    Result CustodyError (Unit {0}) × Custody → Result CustodyError String × Custody
after_init (ok done, s) = (active_or_refuse s, s)
after_init (err e, s) = (err e, s)

unfoldable pub init : RemoteCustodyAdapter → Custody → Result CustodyError String × Custody
unfolding reload
init adapter s = after_init (reload adapter (record s { is_built = true }))

abbrev pub jwks_of : List (String × CachedKey) → List PublicJwk
jwks_of [] = []
jwks_of ((k, c) ∷ ks) = c.public_jwk ∷ jwks_of ks

unfoldable pub list_public_jwks : Custody → List PublicJwk
list_public_jwks s = jwks_of s.keys

-- What follows the adapter's answer.
abbrev pub shaped : Decoded (List ℕ) → Result CustodyError (List ℕ)
shaped (err e) = err (bad_signature e)
shaped (ok signature) = elim (assert_jws_signature_shape signature) [
  | ok done ↦ ok signature
  | err e ↦ err (bad_signature e)
]

abbrev pub as_jose : Result CustodyError (List ℕ) → Result CustodyError (List ℕ)
as_jose (err e) = err signing_refused
as_jose (ok raw) = shaped (normalize_ecdsa_signature raw)

abbrev pub sign_with :
    RemoteCustodyAdapter → String → Option CachedKey → Result CustodyError (List ℕ)
sign_with adapter payload none = err signing_refused
sign_with adapter payload (some c) = as_jose (adapter.sign_remote c.remote payload)

abbrev pub after_refresh :
    RemoteCustodyAdapter
    → String
    → String
    → Result CustodyError (Unit {0}) × Custody
    → Result CustodyError (List ℕ) × Custody
after_refresh adapter kid payload (ok done, s) = (sign_with adapter payload (cached kid s.keys), s)
after_refresh adapter kid payload (err e, s) = (err e, s)

-- A key that is not known is looked for once more.
abbrev pub sign_found :
    RemoteCustodyAdapter
    → String
    → String
    → Option CachedKey
    → Custody
    → Result CustodyError (List ℕ) × Custody
sign_found adapter kid payload none s = after_refresh adapter kid payload (reload adapter s)
sign_found adapter kid payload (some c) s = (sign_with adapter payload (some c), s)

unfoldable pub custody_sign :
    RemoteCustodyAdapter → String → String → Custody → Result CustodyError (List ℕ) × Custody
unfolding reload cached
custody_sign adapter kid payload s =
    if s.is_built
    then sign_found adapter kid payload (cached kid s.keys) s
    else (err unavailable, s)

abbrev pub is_unhealthy : Option (Result CustodyError Bool) → Bool
is_unhealthy none = false
is_unhealthy (some (ok healthy)) = not healthy
is_unhealthy (some (err e)) = true

abbrev pub health_of : Result CustodyError (Unit {0}) × Custody → Bool × Custody
health_of (ok done, s) = (not (is_unset s.active_key), s)
health_of (err e, s) = (false, s)

unfoldable pub health_check : RemoteCustodyAdapter → Custody → Bool × Custody
unfolding reload
health_check adapter s =
    if not s.is_built
    then (false, s)
    else if is_unhealthy adapter.health
    then (false, s)
    else health_of (reload adapter s)

abbrev pub retire_all : List String → List CustodyEvent → List CustodyEvent
retire_all [] es = es
retire_all (kid ∷ kids) es = retire_all kids (key_retired kid ∷ es)

abbrev pub after_rotation :
    Rotated → Result CustodyError (Unit {0}) × Custody → Result CustodyError Rotated × Custody
after_rotation result (err e, s) = (err e, s)
after_rotation result (ok done, s) = (
  ok result,
  record s { events = key_promoted result.promoted_kid ∷ retire_all result.retired_kids s.events },
)

abbrev pub rotate_by :
    RemoteCustodyAdapter
    → Option (Result CustodyError Rotated)
    → Custody
    → Result CustodyError Rotated × Custody
rotate_by adapter none s = (err rotation_unsupported, s)
rotate_by adapter (some (err e)) s = (err e, s)
rotate_by adapter (some (ok result)) s = after_rotation result (reload adapter s)

unfoldable pub custody_rotate :
    RemoteCustodyAdapter → Custody → Result CustodyError Rotated × Custody
unfolding reload
custody_rotate adapter s =
    if s.is_built then rotate_by adapter adapter.rotate_remote s else (err unavailable, s)

unfoldable pub close : Custody → Custody
close s = record s { is_built = false; keys = []; active_key = none }
