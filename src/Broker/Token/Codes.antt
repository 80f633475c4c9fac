-- ===== src/Broker/Token/Codes.antt =====
-- Authorization codes of apps/broker/src/modules/oidc/oidc.controller.ts.
use Prim.Native.String.{String}
use sdidfy.Prelude.{
  ℕ, ◌<◌, ◌≡◌, refl, ap, ◌∙◌, Bool, true, false, ◌&&◌, none, some, ok, err, err-ne-ok, Bool-cases,
  inl, inr, arith, same, same_iff,
}
use sdidfy.Shared.Errors.{bridge_error, invalid_grant}
use sdidfy.Broker.World.{World, RelyingParty, AuthorizationCode}
use sdidfy.Broker.Table.{first, any, any-update, first-holds}
use sdidfy.Broker.Handler.{◌>>=◌}
use sdidfy.Broker.Environment.{Environment}
use sdidfy.Broker.Pairwise.{mint, subject_for}
use sdidfy.Broker.Token.{redeem_code, look_up_code, look_up_given, is_unused, use_code}

module _ (env : Environment) (rp : RelyingParty) where
  redeem_code-codes :
      (now : ℕ) (row : AuthorizationCode) (w : World)
      → any (is_unused row.code_hash) (redeem_code env now rp row w).1.codes ≡ false
  unfolding redeem_code mint subject_for ◌>>=◌
  redeem_code-codes now row w =
      let spent =
        any-update (is_unused row.code_hash) (use_code now) w.codes
          (λ c h. off (same c.code_hash row.code_hash)) in
      ground (arith, spent)
    where
      off : (b : Bool) → (b && false) ≡ false
      off true = refl
      off false = refl

  -- Whatever became of a redemption, the code is spent: no second one succeeds, not even one that
  -- read the unused row before.
  pub redeem_code-once :
      (now later : ℕ) (row again : AuthorizationCode) (rp' : RelyingParty) (w : World)
      → again.code_hash ≡ row.code_hash
      → (redeem_code env later rp' again (redeem_code env now rp row w).1).0
        ≡ err (bridge_error invalid_grant 400)
  redeem_code-once now later row again rp' w it = lost (redeem_code env now rp row w).1 (
      ap (λ (h : String). any (is_unused h) (redeem_code env now rp row w).1.codes) it
      ∙ redeem_code-codes now row w)
    where
      lost :
          (v : World)
          → any (is_unused again.code_hash) v.codes ≡ false
          → (redeem_code env later rp' again v).0 ≡ err (bridge_error invalid_grant 400)
      lost v e = unfold redeem_code ◌>>=◌ in rw e refl

  look_up_given-genuine :
      (now : ℕ) (code uri verifier : String) (row : AuthorizationCode) (w : World)
      → (look_up_given env now rp code uri verifier w).0 ≡ ok row
      → (row.code_hash ≡ env.sha256_hex code)
        × (row.rp_id ≡ rp.id)
        × (row.consumed_at ≡ none)
        × (now < row.expires_at)
        × (row.redirect_uri ≡ uri)
        × (row.code_challenge ≡ env.base64url_sha256 verifier)
  unfolding look_up_given ◌>>=◌
  look_up_given-genuine now code uri verifier row w e = ground (
    arith,
    e,
    holds,
    same_iff row.code_hash (env.sha256_hex code),
    same_iff row.rp_id rp.id,
    same_iff row.redirect_uri uri,
    same_iff (env.base64url_sha256 verifier) row.code_challenge,
  )
    where
      holds :
          first (λ c. same c.code_hash (env.sha256_hex code)) w.codes ≡ some row
          → same row.code_hash (env.sha256_hex code) ≡ true
      holds = first-holds (λ c. same c.code_hash (env.sha256_hex code)) w.codes row

  look_up_code-given :
      (now : ℕ) (code uri verifier : String) (row : AuthorizationCode) (w : World)
      → (look_up_code env now rp
          (record { code = some code; redirect_uri = some uri; code_verifier = some verifier })
          w).0
        ≡ ok row
      → (look_up_given env now rp code uri verifier w).0 ≡ ok row
  unfolding look_up_code ◌>>=◌
  look_up_code-given now code uri verifier row w e = elim (Bool-cases (same code "")) [
    | inl empty ↦ absurd (err-ne-ok (rw empty at e))
    | inr full ↦ elim (Bool-cases (same uri "")) [
      | inl empty ↦ absurd (err-ne-ok (rw (full, empty) at e))
      | inr full' ↦ elim (Bool-cases (same verifier "")) [
        | inl empty ↦ absurd (err-ne-ok (rw (full, full', empty) at e))
        | inr full'' ↦ rw (full, full', full'') at e
      ]
    ]
  ]

  -- A code is handed on only for the client that it was issued to, unused and unexpired, with the
  -- redirect address of the authorization request and the verifier of its PKCE challenge.
  pub look_up_code-genuine :
      (now : ℕ) (code uri verifier : String) (row : AuthorizationCode) (w : World)
      → (look_up_code env now rp
          (record { code = some code; redirect_uri = some uri; code_verifier = some verifier })
          w).0
        ≡ ok row
      → (row.code_hash ≡ env.sha256_hex code)
        × (row.rp_id ≡ rp.id)
        × (row.consumed_at ≡ none)
        × (now < row.expires_at)
        × (row.redirect_uri ≡ uri)
        × (row.code_challenge ≡ env.base64url_sha256 verifier)
  look_up_code-genuine now code uri verifier row w e =
      look_up_given-genuine now code uri verifier row w
        (look_up_code-given now code uri verifier row w e)
