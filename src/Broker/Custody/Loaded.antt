-- ===== src/Broker/Custody/Loaded.antt =====
-- adapter-custody.ts: the cache after the keys of a backend were read.
use Prim.Native.String.{String}
use mathlib.Core.Path.{subst}
use sdidfy.Prelude.{
  ◌≡◌, ◌≢◌, refl, sym, ◌∙◌, ◌&&◌, List, [], ◌∷◌, Option, none, some, Result, ok, err, ◌>>=◌, same,
  same_iff, if◌then◌else◌, All, arith, Bool-cases, inl, inr, some-injective, none≢some,
  ok-injective, err-ne-ok,
}
use sdidfy.Broker.Custody.{
  RemoteKey, PublicJwk, CustodyError, RemoteCustodyAdapter, CachedKey, Custody, cached, cache,
  to_public_jwk, is_unset, first_active, load_each, with_keys, reload,
}

-- The key is stamped with the identifier that it stands under, and is public.
abbrev pub IsStamped : String × CachedKey → Type 0
IsStamped (kid, c) =
    (c.public_jwk.kid ≡ kid) × (c.public_jwk.use_of ≡ some "sig") × (c.public_jwk.d ≡ none)

abbrev pub IsIn : List (String × CachedKey) → Option String → Type 0
IsIn keys active = (kid : String) → active ≡ some kid → cached kid keys ≢ none

pub record IsPublished (keys : List (String × CachedKey)) (active : Option String) : Type 0 where
  pub stamped : All IsStamped keys
  pub active_in : IsIn keys active

cached-cache :
    (k j : String) (c : CachedKey) (keys : List (String × CachedKey))
    → cached j (cache k c keys) ≡ (if same k j then some c else cached j keys)
unfolding cached cache
cached-cache k j c [] = refl
cached-cache k j c ((i, old) ∷ keys) =
    ground (arith, same_iff k j, same_iff i k, same_iff i j, cached-cache k j c keys)

cache-IsStamped :
    (k : String) (c : CachedKey) (keys : List (String × CachedKey))
    → IsStamped (k, c)
    → All IsStamped keys
    → All IsStamped (cache k c keys)
unfolding cache
cache-IsStamped k c [] this h = (this, tt)
cache-IsStamped k c ((i, old) ∷ keys) this (first, h) = elim (Bool-cases (same i k)) [
  | inl hit ↦ rw hit (subst (λ (x : String). IsStamped (x, c)) (sym ((same_iff i k).0 hit)) this, h)
  | inr miss ↦ rw miss (first, cache-IsStamped k c keys this h)
]

kept :
    (k j : String) (c : CachedKey) (keys : List (String × CachedKey))
    → cached j keys ≢ none
    → cached j (cache k c keys) ≢ none
kept k j c keys there gone = elim (Bool-cases (same k j)) [
  | inl hit ↦ none≢some {a = c} (sym gone ∙ cached-cache k j c keys ∙ rw hit refl)
  | inr miss ↦ there (sym (cached-cache k j c keys ∙ rw miss refl) ∙ gone)
]

load_one-IsPublished :
    (remote : RemoteKey) (material : PublicJwk) (keys : List (String × CachedKey))
    (active : Option String)
    → IsPublished keys active
    → IsPublished
        (cache remote.kid
          (record { remote = remote; public_jwk = to_public_jwk material remote })
          keys)
        (first_active remote active)
unfolding to_public_jwk
load_one-IsPublished remote material keys active h = record {
  stamped = cache-IsStamped remote.kid c keys (refl, refl, refl) h.stamped;
  active_in = elim (Bool-cases (remote.is_active && is_unset active)) [
    | inl chosen ↦ rw chosen (λ kid e gone. none≢some {a = c} (
        sym gone
        ∙ cached-cache remote.kid kid c keys
        ∙ rw ((same_iff remote.kid kid).1 (some-injective e)) refl))
    | inr old ↦ rw old (λ kid e. kept remote.kid kid c keys (h.active_in kid e))
  ];
}
  where
    c : CachedKey
    c = record { remote = remote; public_jwk = to_public_jwk material remote }

load_each-IsPublished :
    (adapter : RemoteCustodyAdapter) (remotes : List RemoteKey)
    (keys after : List (String × CachedKey)) (active chosen : Option String)
    → IsPublished keys active
    → load_each adapter remotes keys active ≡ ok (after, chosen)
    → IsPublished after chosen
unfolding load_each
load_each-IsPublished adapter [] keys after active chosen h e =
    subst (λ (p : List (String × CachedKey) × Option String). IsPublished p.0 p.1) (ok-injective e)
      h
load_each-IsPublished adapter (remote ∷ remotes) keys after active chosen h e =
    go (adapter.get_public_key remote)
      (λ material.
        load_each-IsPublished adapter remotes (grown material) after (first_active remote active)
          chosen (load_one-IsPublished remote material keys active h))
      e
  where
    grown : PublicJwk → List (String × CachedKey)
    grown material =
        cache remote.kid (record { remote = remote; public_jwk = to_public_jwk material remote })
          keys

    go :
        (r : Result CustodyError PublicJwk)
        → ((material : PublicJwk)
            → load_each adapter remotes (grown material) (first_active remote active)
              ≡ ok (after, chosen)
            → IsPublished after chosen)
        → (r >>= λ material.
            load_each adapter remotes (grown material) (first_active remote active))
          ≡ ok (after, chosen)
        → IsPublished after chosen
    go (err thrown) rest e = absurd (err-ne-ok e)
    go (ok material) rest e = rest material e

abbrev pub Publishes : Custody → Type 0
Publishes s = IsPublished s.keys s.active_key

pub empty-IsPublished : IsPublished [] none
empty-IsPublished = record { stamped = tt; active_in = λ kid e. absurd (none≢some e) }

pub reload-Publishes :
    (adapter : RemoteCustodyAdapter) (s : Custody) → Publishes s → Publishes (reload adapter s).1
unfolding reload
reload-Publishes adapter s h = listed adapter.list_keys
  where
    loaded :
        (r : Result CustodyError (List (String × CachedKey) × Option String))
        → ((keys : List (String × CachedKey)) (active : Option String)
            → r ≡ ok (keys, active)
            → IsPublished keys active)
        → Publishes (with_keys r s).1
    loaded (err e) fine = h
    loaded (ok (keys, active)) fine = fine keys active refl

    listed :
        (r : Result CustodyError (List RemoteKey))
        → Publishes (with_keys (r >>= λ remotes. load_each adapter remotes [] none) s).1
    listed (err e) = h
    listed (ok remotes) = loaded (load_each adapter remotes [] none) (λ keys active e.
        load_each-IsPublished adapter remotes [] keys none active empty-IsPublished e)
