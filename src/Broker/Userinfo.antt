-- ===== src/Broker/Userinfo.antt =====
-- `userinfo`, `introspect` and `revoke` of apps/broker/src/modules/oidc/oidc.controller.ts. The claims
-- are those that `keys.verifyJwt` or, in `revoke`, `decodeJwt` found in the token; none if none.
pub mod Release
pub mod Entitled
use Prim.Native.String.{String}
use sdidfy.Prelude.{
  ℕ, ◌+◌, ◌-◌, ◌*◌, ◌/◌, Bool, true, false, not, ◌&&◌, ◌||◌, List, [], ◌∷◌, Option, none, some,
  Result, ok, err, ltb, if◌then◌else◌, same, includes,
}
use sdidfy.Shared.Assurance.{AssuranceLevel}
use sdidfy.Shared.Errors.{access_denied, sdid_unavailable}
use sdidfy.Broker.Store.{get, set}
use sdidfy.Broker.World.{World, Citizen, RelyingParty}
use sdidfy.Broker.Table.{first, rows}
use sdidfy.Broker.Handler.{
  Handler, ◌>>=◌, ◌>>◌, pure, throw, refuse_if, present, gets, modify, append, event,
}
use sdidfy.Broker.Pairwise.{citizen_for_subject}
use sdidfy.Broker.Consent.{is_live_grant, covered}
use sdidfy.Broker.Token.{load_by_client_id}

pub record TokenClaims : Type 0 where
  pub jti : Option String
  pub sub : Option String
  pub client_id : Option String
  pub audience : List String
  pub token_use : String
  pub scopes : List String
  pub exp : Option ℕ

pub record Attributes : Type 0 where
  pub name : Option String
  pub date_of_birth : Option String
  pub address : Option String

-- SDID's attributes for a subject under these scopes: unknown there, or unavailable.
pub data AttributeAnswer : Type 0 where
  attributes : Attributes → AttributeAnswer
  unknown_at_sdid sdid_down : AttributeAnswer

abbrev pub is_some : {A : Type 0} → Option A → Bool
is_some none = false
is_some (some a) = true

abbrev pub is_revoked : ℕ → Option String → World → Bool
is_revoked now none w = false
is_revoked now (some jti) w = is_some (get now jti w.revoked_tokens)

abbrev pub released : Bool → Bool → Attributes → Attributes
released profile address a = record {
  name = if profile then a.name else none;
  date_of_birth = if profile then a.date_of_birth else none;
  address = if address then a.address else none;
}

abbrev pub nothing_released : Attributes
nothing_released = record { name = none; date_of_birth = none; address = none }

abbrev pub fetched : Bool → Bool → AttributeAnswer → Handler Attributes
fetched profile address (attributes a) = pure (released profile address a)
fetched profile address unknown_at_sdid = pure nothing_released
fetched profile address sdid_down = throw sdid_unavailable 503

abbrev pub fetch_for :
    (String → List String → AttributeAnswer) → List String → Option String → Handler Attributes
fetch_for sdid scopes none = pure nothing_released
fetch_for sdid scopes (some subject) =
    if includes scopes "profile" || includes scopes "address"
    then fetched (includes scopes "profile") (includes scopes "address") (sdid subject scopes)
    else pure nothing_released

-- The subject and the attributes that are released.
unfoldable pub userinfo :
    (String → List String → AttributeAnswer)
    → ℕ
    → Option TokenClaims
    → Handler (String × Attributes)
userinfo sdid now token = do
  payload ← present token access_denied 401
  refuse_if (not (same payload.token_use "access")) access_denied 401
  barred ← gets (is_revoked now payload.jti)
  refuse_if barred access_denied 401
  client_id ← present payload.client_id access_denied 401
  sub ← present payload.sub access_denied 401
  party ← load_by_client_id client_id
  rp ← present party access_denied 401
  resolved ← citizen_for_subject rp.id sub
  citizen_id ← present resolved access_denied 401
  row ← gets (λ w. first (λ c. same c.id citizen_id) w.citizens)
  citizen ← present row access_denied 401
  grants ← gets (λ w. rows (is_live_grant citizen.id rp.id) w.grants)
  refuse_if (not (covered payload.scopes grants)) access_denied 403
  claims ← fetch_for sdid payload.scopes citizen.sdid_subject
  pure (sub, claims)

-- Whether the token is reported active.
unfoldable pub introspect : ℕ → Option TokenClaims → Handler Bool
introspect now none = pure false
introspect now (some payload) = do barred ← gets (is_revoked now payload.jti); pure (not barred)

abbrev pub exp_of : Option ℕ → ℕ
exp_of none = 0
exp_of (some exp) = exp

-- `Math.max(exp - Math.floor(Date.now() / 1000), 1)`
abbrev pub revocation_ttl : ℕ → Option ℕ → ℕ
revocation_ttl now exp = if ltb 1 (exp_of exp - now / 1000) then exp_of exp - now / 1000 else 1

abbrev pub revoke_jti : ℕ → RelyingParty → TokenClaims → Option String → Handler (Unit {0})
revoke_jti now rp payload none = pure tt
revoke_jti now rp payload (some jti) =
    if includes payload.audience rp.client_id
    then (do
      modify (λ w. record w {
        revoked_tokens =
            set jti "1" (some (now + revocation_ttl now payload.exp * 1000)) w.revoked_tokens;
      })
      append (record (event "rp" (some rp.id) "token.revoked" "success") {
        rp_id = some rp.id;
        context = ("jti", jti ∷ []) ∷ ("tokenUse", payload.token_use ∷ []) ∷ [];
      }))
    else pure tt

-- The claims are decoded but not verified.
unfoldable pub revoke : ℕ → RelyingParty → Option TokenClaims → Handler (Unit {0})
revoke now rp none = pure tt
revoke now rp (some payload) = revoke_jti now rp payload payload.jti
