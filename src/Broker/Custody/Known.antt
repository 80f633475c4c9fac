-- ===== src/Broker/Custody/Known.antt =====
-- adapter-custody.ts: a key that is in the cache.
use Prim.Native.String.{String}
use mathlib.Core.Path.{subst}
use sdidfy.Prelude.{
  ℕ, length, ◌==◌, ok-injective, err-ne-ok, ◌≡◌, ◌⊎◌, refl, sym, ap, ◌∙◌, true, List, [], ◌∷◌,
  Option, none, some, Result, ok, err, ◌>>=◌, arith, same, same_iff, All, Bool-cases, inl, inr,
  none≢some, some-injective,
}
use sdidfy.Broker.Custody.{
  PublicJwk, CustodyError, RemoteCustodyAdapter, CachedKey, Custody, cached, with_keys, load_each,
  reload, jwks_of, sign_with, as_jose, shaped, bad_signature, custody_sign, is_unhealthy, health_of,
  health_check,
}
use sdidfy.Broker.Jose.{Decoded, wrong_shape, normalize_ecdsa_signature}
use sdidfy.Broker.Custody.Loaded.{IsStamped}

abbrev pub Has : List PublicJwk → PublicJwk → Type 0
Has [] jwk = ⊥
Has (k ∷ ks) jwk = (k ≡ jwk) ⊎ Has ks jwk

-- The key under an identifier is published, stamped with it.
pub cached-Has :
    (kid : String) (keys : List (String × CachedKey)) (c : CachedKey)
    → All IsStamped keys
    → cached kid keys ≡ some c
    → Has (jwks_of keys) c.public_jwk × IsStamped (kid, c)
unfolding cached
cached-Has kid [] c stamped e = absurd (none≢some e)
cached-Has kid ((k, d) ∷ keys) c (this, stamped) e = elim (Bool-cases (same k kid)) [
  | inl hit ↦
      let row : d ≡ c = some-injective (sym (rw hit refl) ∙ e) in
      (
        inl (ap (λ (x : CachedKey). x.public_jwk) row),
        subst (λ (x : CachedKey). IsStamped (kid, x)) row
            (subst (λ (x : String). IsStamped (x, d)) ((same_iff k kid).0 hit) this),
      )
  | inr miss ↦
      let (has, is) = cached-Has kid keys c stamped (sym (rw miss refl) ∙ e) in (inr has, is)
]

reload-is_built :
    (adapter : RemoteCustodyAdapter) (s : Custody) → (reload adapter s).1.is_built ≡ s.is_built
unfolding reload
reload-is_built adapter s =
    loaded (adapter.list_keys >>= λ remotes. load_each adapter remotes [] none)
  where
    loaded :
        (r : Result CustodyError (List (String × CachedKey) × Option String))
        → (with_keys r s).1.is_built ≡ s.is_built
    loaded (ok (keys, active)) = refl
    loaded (err e) = refl

health_of-is_built :
    (r : Result CustodyError (Unit {0}) × Custody) → (health_of r).1.is_built ≡ r.1.is_built
health_of-is_built (ok done, s) = refl
health_of-is_built (err e, s) = refl

pub healthy-is_built :
    (adapter : RemoteCustodyAdapter) (s : Custody)
    → (health_check adapter s).0 ≡ true
    → (health_check adapter s).1.is_built ≡ true
unfolding health_check
healthy-is_built adapter s h = elim (Bool-cases s.is_built) [
  | inl built ↦ elim (Bool-cases (is_unhealthy adapter.health)) [
    | inl bad ↦ absurd (ground (arith, built, bad, h))
    | inr good ↦
        simp (built, good)
          (health_of-is_built (reload adapter s) ∙ reload-is_built adapter s ∙ built)
  ]
  | inr gone ↦ absurd (ground (arith, gone, h))
]

pub custody_sign-known :
    (adapter : RemoteCustodyAdapter) (kid payload : String) (s : Custody) (c : CachedKey)
    → s.is_built ≡ true
    → cached kid s.keys ≡ some c
    → custody_sign adapter kid payload s ≡ (sign_with adapter payload (some c), s)
unfolding custody_sign
custody_sign-known adapter kid payload s c built known = rw (built, known) refl

-- The answer of the backend, in the form of a JWS.
pub record Converted (answer : Result CustodyError (List ℕ)) (signature : List ℕ) : Type 0 where
  pub raw : List ℕ
  pub answered : answer ≡ ok raw
  pub jose : normalize_ecdsa_signature raw ≡ ok signature
  pub size : length signature ≡ 64

shaped-returns :
    (d : Decoded (List ℕ)) (signature : List ℕ)
    → shaped d ≡ ok signature
    → (d ≡ ok signature) × (length signature ≡ 64)
shaped-returns (err e) signature h = cc
shaped-returns (ok s) signature h = elim (Bool-cases (length s == 64)) [
  | inl fine ↦
      let kept : shaped (ok s) ≡ ok s = rw (shaped, fine) refl in
      let same_text = ok-injective (sym kept ∙ h) in
      (ap ok same_text, ap length (sym same_text) ∙ ground (arith, fine))
  | inr wrong ↦
      let refused : shaped (ok s) ≡ err (bad_signature wrong_shape) = rw (shaped, wrong) refl in
      absurd (err-ne-ok (sym refused ∙ h))
]

pub sign_with-returns :
    (adapter : RemoteCustodyAdapter) (payload : String) (signature : List ℕ) (c : CachedKey)
    → sign_with adapter payload (some c) ≡ ok signature
    → Converted (adapter.sign_remote c.remote payload) signature
sign_with-returns adapter payload signature c h = go (adapter.sign_remote c.remote payload) h
  where
    go : (r : Result CustodyError (List ℕ)) → as_jose r ≡ ok signature → Converted r signature
    go (ok raw) h =
        let (jose, size) = shaped-returns (normalize_ecdsa_signature raw) signature h in
        record { raw = raw; answered = refl; jose = jose; size = size }
    go (err e) h = cc
