-- ===== src/Broker/Userinfo/Release.antt =====
-- The revocation of tokens in
-- apps/broker/src/modules/oidc/oidc.controller.ts.
use Prim.Native.String.{String}
use sdidfy.Prelude.{
  ℕ, ◌+◌, ◌*◌, ◌-◌, ◌/◌, ◌<◌, ◌≡◌, refl, true, false, not, List, some, ok, arith, same, includes,
  Bool-cases, inl, inr, ltb, lt→ltb,
}
use sdidfy.Broker.World.{World, RelyingParty}
use sdidfy.Broker.Store.{get-set}
use sdidfy.Broker.Handler.{◌>>=◌}
use sdidfy.Broker.Userinfo.{
  userinfo, introspect, revoke, TokenClaims, AttributeAnswer, revocation_ttl, is_revoked,
}
use sdidfy.Broker.Guards.{IsRefused}

module _ (sdid : String → List String → AttributeAnswer) (later : ℕ) (payload : TokenClaims)
    (v : World) (barred : is_revoked later payload.jti v ≡ true) where
  userinfo-IsRefused : IsRefused (userinfo sdid later (some payload) v).0
  unfolding userinfo ◌>>=◌
  userinfo-IsRefused = elim (Bool-cases (not (same payload.token_use "access"))) [
    | inl other ↦ rw other tt
    | inr access ↦ rw (access, barred) tt
  ]

  introspect-inactive : (introspect later (some payload) v).0 ≡ ok false
  unfolding introspect ◌>>=◌
  introspect-inactive = rw barred refl

-- A token that its audience revokes is refused and reported inactive until it expires, as the clock
-- counts whole seconds.
pub revoke-bars :
    (sdid : String → List String → AttributeAnswer) (now later exp : ℕ) (rp : RelyingParty)
    (jti : String) (payload : TokenClaims) (w : World)
    → payload.jti ≡ some jti
    → payload.exp ≡ some exp
    → includes payload.audience rp.client_id ≡ true
    → later < (exp - now / 1000) * 1000 + now
    → IsRefused (userinfo sdid later (some payload) (revoke now rp (some payload) w).1).0
      × ((introspect later (some payload) (revoke now rp (some payload) w).1).0 ≡ ok false)
revoke-bars sdid now later exp rp jti payload w named expires his early = (
  userinfo-IsRefused sdid later payload (revoke now rp (some payload) w).1 barred,
  introspect-inactive sdid later payload (revoke now rp (some payload) w).1 barred,
)
  where
    dies : ℕ
    dies = now + revocation_ttl now payload.exp * 1000

    alive : ltb later dies ≡ true
    alive = lt→ltb later dies (ground (arith, expires, early))

    barred : is_revoked later payload.jti (revoke now rp (some payload) w).1 ≡ true
    barred =
        unfold revoke ◌>>=◌ in
        ground (arith, named, his, alive, get-set later jti "1" (some dies) w.revoked_tokens)
