-- ===== src/Broker/Keys/Ready.antt =====
-- keys.service.ts over adapter-custody.ts: what a readiness probe that passes has shown.
use Prim.Native.String.{String}
use mathlib.Core.Path.{subst}
use sdidfy.Prelude.{ℕ, ◌≡◌, refl, sym, ap, ◌∙◌, Bool, true, false, not, List, [], ok, arith}
use sdidfy.Broker.Custody.{PublicJwk, RemoteCustodyAdapter, Custody, list_public_jwks, health_check}
use sdidfy.Broker.Custody.Loaded.{Publishes, IsStamped}
use sdidfy.Broker.Custody.Published.{health_check-Publishes}
use sdidfy.Broker.Custody.Known.{Has, cached-Has, healthy-is_built}
use sdidfy.Broker.Keys.{KeysService, for_probe, note_health}
use sdidfy.Broker.Keys.Boundary.{
  Boundary, TokenFormat, KeysError, >>=-then, sign_compact_jws, ask_health, serve, fail_if, refresh,
  published, is_empty, probe_signing, custody_unhealthy, empty_jwks, not_verified,
}
use sdidfy.Broker.Keys.Signs.{IsSigned, sign_compact_jws-IsSigned}

fail_if-returns :
    (b : Bool) (e : KeysError) (s t : Boundary) → fail_if b e s ≡ (ok tt, t) → (b ≡ false) × (t ≡ s)
fail_if-returns true e s t h = cc
fail_if-returns false e s t h = (refl, cc)

serve-returns :
    (f : KeysService → KeysService) (s t : Boundary)
    → serve f s ≡ (ok tt, t)
    → (t.custody ≡ s.custody) × (t.public_jwks ≡ s.public_jwks)
serve-returns f s t h = (cc, cc)

refresh-returns :
    (s t : Boundary)
    → refresh s ≡ (ok tt, t)
    → (t.custody ≡ s.custody) × (t.public_jwks ≡ list_public_jwks s.custody)
refresh-returns s t h = (cc, cc)

published-returns :
    (s t : Boundary) (keys : List PublicJwk)
    → published s ≡ (ok keys, t)
    → (keys ≡ s.public_jwks) × (t ≡ s)
published-returns s t keys h = (cc, cc)

ask_health-returns :
    (adapter : RemoteCustodyAdapter) (s t : Boundary) (healthy : Bool)
    → ask_health adapter s ≡ (ok healthy, t)
    → ((health_check adapter s.custody).0 ≡ healthy)
      × (t.custody ≡ record (health_check adapter s.custody).1 { events = [] })
ask_health-returns adapter s t healthy h = (cc, cc)

-- The probe's token, the key that signed it, and the published set that verifies it.
pub record IsReady (format : TokenFormat) (later : RemoteCustodyAdapter) (claims : String)
    (custody : Custody) (jwks : List PublicJwk) : Type 0 where
  pub token : String × List ℕ
  pub by_active : IsSigned format later claims custody token
  pub in_jwks : Has jwks by_active.key.public_jwk
  pub stamped : IsStamped (by_active.kid, by_active.key)
  pub verified : format.verifies jwks token.0 token.1 ≡ true

-- A signature that is made and verified while the published set is that of custody.
signed-IsReady :
    (format : TokenFormat) (later : RemoteCustodyAdapter) (claims : String) (now : ℕ)
    (recorded : Bool) (checked : Custody) (u v : Boundary) (token : String × List ℕ)
    → Publishes checked
    → checked.is_built ≡ true
    → u.custody ≡ record checked { events = [] }
    → u.public_jwks ≡ list_public_jwks checked
    → sign_compact_jws format later claims for_probe now recorded u ≡ (ok token, v)
    → format.verifies v.public_jwks token.0 token.1 ≡ true
    → IsReady format later claims checked v.public_jwks
unfolding list_public_jwks
signed-IsReady format later claims now recorded checked u v token sound built custody jwks ran
      good =
    let sound' : Publishes u.custody = subst Publishes (sym custody) sound in
    let built' = ap (λ (c : Custody). c.is_built) custody ∙ built in
    let (made, kept, _) =
      sign_compact_jws-IsSigned format later claims for_probe now recorded u v token sound' built'
        ran in
    let by_active = subst (λ (c : Custody). IsSigned format later claims c token) custody made in
    let (has, stamped) =
      cached-Has by_active.kid checked.keys by_active.key sound.stamped by_active.known in
    record {
      token = token;
      by_active = record {
        kid = by_active.kid;
        key = by_active.key;
        active = by_active.active;
        known = by_active.known;
        text_is = by_active.text_is;
        made = by_active.made;
      };
      in_jwks =
          subst (λ (l : List PublicJwk). Has l by_active.key.public_jwk) (sym (kept ∙ jwks)) has;
      stamped = stamped;
      verified = good;
    }

-- While custody publishes the key that it holds active and each key it publishes is stamped, as in
-- every state that its operations reach, a readiness probe passes only if the key that custody holds
-- active after its health check has signed the probe's token, and the public half of this very key
-- is in the set of keys that the service serves afterwards, under the same identifier and without a
-- private member, and the token verifies against that set.
pub probe_signing-IsReady :
    (format : TokenFormat) (adapter later : RemoteCustodyAdapter) (claims : String) (now : ℕ)
    (noted recorded : Bool) (s t : Boundary)
    → Publishes s.custody
    → probe_signing format adapter later claims now noted recorded s ≡ (ok tt, t)
    → IsReady format later claims (health_check adapter s.custody).1 t.public_jwks
unfolding probe_signing list_public_jwks
probe_signing-IsReady format adapter later claims now noted recorded s t sound h =
    >>=-then (ask_health adapter) _ s t h λ healthy u1 ran1 h1.
      >>=-then (serve (note_health healthy noted)) _ u1 t h1 λ _ u2 ran2 h2.
        >>=-then (fail_if (not healthy) custody_unhealthy) _ u2 t h2 λ _ u3 ran3 h3.
          >>=-then refresh _ u3 t h3 λ _ u4 ran4 h4. >>=-then published _ u4 t h4 λ keys u5 ran5 h5.
            >>=-then (fail_if (is_empty keys) empty_jwks) _ u5 t h5 λ _ u6 ran6 h6.
              >>=-then (sign_compact_jws format later claims for_probe now recorded) _ u6 t h6
                λ token u7 ran7 h7. >>=-then published _ u7 t h7 λ jwks u8 ran8 h8.
                  let checked = (health_check adapter s.custody).1 in
                  let (answer, c1) = ask_health-returns adapter s u1 healthy ran1 in
                  let (c2, _) = serve-returns (note_health healthy noted) u1 u2 ran2 in
                  let (well, e3) = fail_if-returns (not healthy) custody_unhealthy u2 u3 ran3 in
                  let (c4, j4) = refresh-returns u3 u4 ran4 in
                  let (_, e5) = published-returns u4 u5 keys ran5 in
                  let (full, e6) = fail_if-returns (is_empty keys) empty_jwks u5 u6 ran6 in
                  let (is_jwks, e8) = published-returns u7 u8 jwks ran8 in
                  let (good, e9) =
                    fail_if-returns (not (format.verifies jwks token.0 token.1)) not_verified u8 t
                      h8 in
                  let custody = λ (x : Boundary). x.custody in
                  let view : u3.custody ≡ record checked { events = [] } =
                    ap custody e3 ∙ c2 ∙ c1 in
                  let same_six : u6 ≡ u4 = e6 ∙ e5 in
                  let same_last : u7 ≡ t = sym (e9 ∙ e8) in
                  let ready =
                    signed-IsReady format later claims now recorded checked u6 u7 token
                      (health_check-Publishes adapter s.custody sound)
                      (healthy-is_built adapter s.custody (answer ∙ ground (arith, well)))
                      (ap custody same_six ∙ c4 ∙ view)
                      (ap (λ (x : Boundary). x.public_jwks) same_six
                        ∙ j4
                        ∙ ap list_public_jwks view)
                      ran7
                      (ap (λ (l : List PublicJwk). format.verifies l token.0 token.1) (sym is_jwks)
                        ∙ ground (arith, good)) in
                  subst (λ (x : Boundary). IsReady format later claims checked x.public_jwks)
                    same_last ready
