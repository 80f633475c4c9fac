-- ===== src/Broker/Keys/Signs.antt =====
-- keys.service.ts over adapter-custody.ts: a token that was signed.
use Prim.Native.String.{String}
use mathlib.Core.Path.{subst}
use sdidfy.Prelude.{
  List, length, ◌==◌, refl, Bool-cases, ok-injective, ℕ, ◌≡◌, sym, ap, ◌∙◌, Bool, true, Option,
  none, some, Result, ok, err, resumes, Option-cases, inl, inr, err-ne-ok,
}
use sdidfy.Broker.Custody.{
  CustodyError, unavailable, RemoteCustodyAdapter, CachedKey, Custody, cached, active_or_refuse,
  sign_with, custody_sign,
}
use sdidfy.Broker.Custody.Loaded.{Publishes}
use sdidfy.Broker.Custody.Known.{Converted, custody_sign-known, sign_with-returns}
use sdidfy.Broker.Jose.{wrong_shape}
use sdidfy.Broker.Keys.{SigningPurpose}
use sdidfy.Broker.Keys.Boundary.{
  rechecked, malformed, Boundary, TokenFormat, KeysError, custody_failed, after_signing,
  sign_compact_jws, attempted, ask_custody, custody_answer, listened, ◌>>=◌,
}

active_or_refuse-active :
    (c : Custody) (active : Option String)
    → c.active_key ≡ active
    → active_or_refuse c ≡ (elim active [ none ↦ err unavailable | some kid ↦ ok kid ])
active_or_refuse-active c active e =
    ap
      (λ (a : Option String).
        let r : Result CustodyError String = elim a [
          | none ↦ err unavailable
          | some kid ↦ ok kid
        ] in
        r)
      e

abbrev settled : Boundary → Boundary
settled s = listened s.custody s

-- With the active key in the cache, nothing is read again, and that key is asked for the signature.
sign_compact_jws-known :
    (format : TokenFormat) (adapter : RemoteCustodyAdapter) (claims : String)
    (purpose : SigningPurpose) (now : ℕ) (appended : Bool) (s : Boundary) (kid : String)
    (c : CachedKey)
    → s.custody.is_built ≡ true
    → s.custody.active_key ≡ some kid
    → cached kid s.custody.keys ≡ some c
    → sign_compact_jws format adapter claims purpose now appended s
      ≡ after_signing kid
          (format.signing_input kid claims)
          purpose
          now
          appended
          (rechecked
            (custody_answer (sign_with adapter (format.signing_input kid claims) (some c))))
          (settled (settled s))
unfolding sign_compact_jws custody_sign ◌>>=◌
sign_compact_jws-known format adapter claims purpose now appended s kid c built active known =
    let text = format.signing_input kid claims in
    ap
      (λ (r : Result CustodyError String).
        resumes
          (λ (k : String).
            attempted (ask_custody (custody_sign adapter k (format.signing_input k claims)))
            >>= λ outcome.
                after_signing k (format.signing_input k claims) purpose now appended
                  (rechecked outcome))
          (custody_answer r, settled s))
      (active_or_refuse-active s.custody (some kid) active)
    ∙ ap
        (λ (x : Result CustodyError (List ℕ) × Custody).
          after_signing kid text purpose now appended (rechecked (custody_answer x.0))
            (listened x.1 (settled s)))
        (custody_sign-known adapter kid text (settled s).custody c built known)

sign_compact_jws-idle :
    (format : TokenFormat) (adapter : RemoteCustodyAdapter) (claims : String)
    (purpose : SigningPurpose) (now : ℕ) (appended : Bool) (s : Boundary)
    → s.custody.active_key ≡ none
    → (sign_compact_jws format adapter claims purpose now appended s).0
      ≡ err (custody_failed unavailable)
unfolding sign_compact_jws ◌>>=◌
sign_compact_jws-idle format adapter claims purpose now appended s idle =
    ap
      (λ (r : Result CustodyError String).
        (resumes
          (λ (k : String).
            attempted (ask_custody (custody_sign adapter k (format.signing_input k claims)))
            >>= λ outcome.
                after_signing k (format.signing_input k claims) purpose now appended
                  (rechecked outcome))
          (custody_answer r, settled s)).0)
      (active_or_refuse-active s.custody none idle)

-- A token that custody has signed under its active key.
pub record IsSigned (format : TokenFormat) (adapter : RemoteCustodyAdapter) (claims : String)
    (custody : Custody) (token : String × List ℕ) : Type 0 where
  pub kid : String
  pub key : CachedKey
  pub active : custody.active_key ≡ some kid
  pub known : cached kid custody.keys ≡ some key
  pub text_is : token.0 ≡ format.signing_input kid claims
  pub made : Converted (adapter.sign_remote key.remote token.0) token.1

after_signing-returns :
    (kid text : String) (purpose : SigningPurpose) (now : ℕ) (appended : Bool)
    (outcome : Result KeysError (List ℕ)) (s t : Boundary) (token : String × List ℕ)
    → after_signing kid text purpose now appended outcome s ≡ (ok token, t)
    → (outcome ≡ ok token.1)
      × (token.0 ≡ text)
      × (t.public_jwks ≡ s.public_jwks)
      × (t.custody ≡ s.custody)
unfolding ◌>>=◌
after_signing-returns kid text purpose now appended (ok signature) s t token h = (cc, cc, cc, cc)
after_signing-returns kid text purpose now appended (err e) s t token h = cc

rechecked-returns :
    (r : Result CustodyError (List ℕ)) (signature : List ℕ)
    → rechecked (custody_answer r) ≡ ok signature
    → r ≡ ok signature
rechecked-returns (err e) signature h = cc
rechecked-returns (ok s) signature h = elim (Bool-cases (length s == 64)) [
  | inl fine ↦
      let kept : rechecked (ok s) ≡ ok s = rw (rechecked, fine) refl in
      ap ok (ok-injective (sym kept ∙ h))
  | inr wrong ↦
      let refused : rechecked (ok s) ≡ err (malformed wrong_shape) = rw (rechecked, wrong) refl in
      absurd (err-ne-ok (sym refused ∙ h))
]

pub sign_compact_jws-IsSigned :
    (format : TokenFormat) (adapter : RemoteCustodyAdapter) (claims : String)
    (purpose : SigningPurpose) (now : ℕ) (appended : Bool) (s t : Boundary)
    (token : String × List ℕ)
    → Publishes s.custody
    → s.custody.is_built ≡ true
    → sign_compact_jws format adapter claims purpose now appended s ≡ (ok token, t)
    → IsSigned format adapter claims s.custody token
      × (t.public_jwks ≡ s.public_jwks)
      × (t.custody.keys ≡ s.custody.keys)
sign_compact_jws-IsSigned format adapter claims purpose now appended s t token sound built h =
    elim (Option-cases s.custody.active_key) [
      | inl idle ↦
          let thrown = sign_compact_jws-idle format adapter claims purpose now appended s idle in
          absurd (
            err-ne-ok
              (sym thrown ∙ ap (λ (x : Result KeysError (String × List ℕ) × Boundary). x.0) h))
      | inr (kid, active) ↦ elim (Option-cases (cached kid s.custody.keys)) [
        | inl gone ↦ absurd (sound.active_in kid active gone)
        | inr (key, known) ↦
            let text = format.signing_input kid claims in
            let ran =
              sign_compact_jws-known format adapter claims purpose now appended s kid key built
                active known in
            let (answer, text_is, jwks, custody) =
              after_signing-returns kid text purpose now appended
                (rechecked (custody_answer (sign_with adapter text (some key))))
                (settled (settled s)) t token (sym ran ∙ h) in
            let made =
              sign_with-returns adapter text token.1 key
                (rechecked-returns (sign_with adapter text (some key)) token.1 answer) in
            (
              record {
                kid = kid;
                key = key;
                active = active;
                known = known;
                text_is = text_is;
                made =
                    subst (λ (x : String). Converted (adapter.sign_remote key.remote x) token.1)
                      (sym text_is) made;
              },
              jwks,
              ap (λ (c : Custody). c.keys) custody,
            )
      ]
    ]
