-- ===== src/Attestation/AppAttest/Binds.antt =====
-- app-attest.ts: a token serves one nonce and one key.
use mathlib.Core.Path.{subst}
use sdidfy.Prelude.{
  ℕ, ◌≡◌, refl, sym, ap, ◌∙◌, not, ◌||◌, List, [], ◌∷◌, ◌++◌, ◌==◌, length, length-append, ok,
  throw_if-eq-ok, >>=-eq-ok, ok-injective, arith,
}
use sdidfy.Attestation.Texts.{codes, same_text, utf8_bytes}
use sdidfy.Attestation.Base64.{unsupported_key, bad_coordinate_length, decode_base64url_strict}
use sdidfy.Attestation.Node.{Certificate, NodeCrypto}
use sdidfy.Attestation.Verdict.{DeviceKey, AttestationRequest, AttestationAccepted}
use sdidfy.Attestation.Points.{jwk_to_raw_point}
use sdidfy.Attestation.KeyAttestation.{read_certificates}
use sdidfy.Attestation.AuthData.{AttestationObject}
use sdidfy.Attestation.AppAttest.{IosVerifier, read_object, verify_app_attest}
use sdidfy.Attestation.AppAttest.Genuine.{Welds, verify_app_attest-IsGenuineIos}

jwk_to_raw_point-length :
    (key : DeviceKey) (point : List ℕ) → jwk_to_raw_point key ≡ ok point → length point ≡ 65
unfolding jwk_to_raw_point
jwk_to_raw_point-length key point e =
    let (kind, e1) =
      throw_if-eq-ok
        (not (same_text key.kty (codes "EC")) || not (same_text key.crv (codes "P-256")))
        unsupported_key _ e in
    let (x, read_x, e2) = >>=-eq-ok (decode_base64url_strict key.x) _ e1 in
    let (y, read_y, e3) = >>=-eq-ok (decode_base64url_strict key.y) _ e2 in
    let (sizes, e4) =
      throw_if-eq-ok (not (length x == 32) || not (length y == 32)) bad_coordinate_length _ e3 in
    let size_x : length x ≡ 32 = ground (arith, sizes) in
    let size_y : length y ≡ 32 = ground (arith, sizes) in
    let total : length (0x04 ∷ x ++ y) ≡ length point =
      ap {B = ℕ} (length {A = ℕ}) (ok-injective e4) in
    omega (arith, total, size_x, size_y, length-append x y)

same_parts : (xs ys p q : List ℕ) → length xs ≡ length ys → xs ++ p ≡ ys ++ q → (xs ≡ ys) × (p ≡ q)
same_parts [] [] p q l e = (refl, e)
same_parts [] (y ∷ ys) p q l e = absurd (omega arith)
same_parts (x ∷ xs) [] p q l e = absurd (omega arith)
same_parts (x ∷ xs) (y ∷ ys) p q l e =
    let (heads, tails) = same_parts xs ys p q (omega arith) (cc) in
    (ground (arith, heads, e), tails)

-- Two texts that end in points of one length.
same_ends : (xs ys p q : List ℕ) → length p ≡ length q → xs ++ p ≡ ys ++ q → (xs ≡ ys) × (p ≡ q)
same_ends xs ys p q l e =
    let total : length (xs ++ p) ≡ length (ys ++ q) = ap {B = ℕ} (length {A = ℕ}) e in
    same_parts xs ys p q (omega (arith, total, length-append xs p, length-append ys q)) e

Welds-binds :
    (crypto : NodeCrypto) (r r' : AttestationRequest) (cert : Certificate) (auth_data : List ℕ)
    → ((a b : List ℕ) → crypto.sha256 a ≡ crypto.sha256 b → a ≡ b)
    → Welds crypto r cert auth_data
    → Welds crypto r' cert auth_data
    → (utf8_bytes r.expected_nonce ≡ utf8_bytes r'.expected_nonce)
      × (jwk_to_raw_point r.device_key ≡ jwk_to_raw_point r'.device_key)
Welds-binds crypto r r' cert auth_data injective (p, known, digest) (p', known', digest') =
    let h = crypto.sha256 (utf8_bytes r.expected_nonce ++ p) in
    let h' = crypto.sha256 (utf8_bytes r'.expected_nonce ++ p') in
    let outer : auth_data ++ h ≡ auth_data ++ h' =
      injective (auth_data ++ h) (auth_data ++ h') (ok-injective (sym digest ∙ digest')) in
    let inner =
      injective (utf8_bytes r.expected_nonce ++ p) (utf8_bytes r'.expected_nonce ++ p')
        (same_parts auth_data auth_data h h' refl outer).1 in
    let (nonces, points) =
      same_ends (utf8_bytes r.expected_nonce) (utf8_bytes r'.expected_nonce) p p'
        (jwk_to_raw_point-length r.device_key p known
          ∙ sym (jwk_to_raw_point-length r'.device_key p' known'))
        inner in
    (nonces, known ∙ ap ok points ∙ sym known')

-- Under a hash without collisions, two requests with one token are both accepted only if they have the
-- same nonce and the same key.
pub verify_app_attest-binds :
    (crypto : NodeCrypto) (config config' : IosVerifier) (r r' : AttestationRequest)
    (v v' : AttestationAccepted)
    → ((a b : List ℕ) → crypto.sha256 a ≡ crypto.sha256 b → a ≡ b)
    → r.token ≡ r'.token
    → verify_app_attest crypto config r ≡ ok v
    → verify_app_attest crypto config' r' ≡ ok v'
    → (utf8_bytes r.expected_nonce ≡ utf8_bytes r'.expected_nonce)
      × (jwk_to_raw_point r.device_key ≡ jwk_to_raw_point r'.device_key)
verify_app_attest-binds crypto config config' r r' v v' injective token e e' =
    let (o, cert, certs, auth, g) = verify_app_attest-IsGenuineIos crypto config r v e in
    let (o', cert', certs', auth', g') = verify_app_attest-IsGenuineIos crypto config' r' v' e' in
    let objects : o ≡ o' = ok-injective (sym g.presented ∙ ap read_object token ∙ g'.presented) in
    let chains : cert ∷ certs ≡ cert' ∷ certs' = ok-injective (
      sym g.read
      ∙ ap (λ (x : AttestationObject). read_certificates crypto x.x5c) objects
      ∙ g'.read) in
    let certificates : cert ≡ cert' = cc in
    Welds-binds crypto r r' cert' o'.auth_data injective
      (subst (λ c. Welds crypto r c o'.auth_data) certificates
        (subst (λ (x : AttestationObject). Welds crypto r cert x.auth_data) objects g.welded))
      g'.welded
