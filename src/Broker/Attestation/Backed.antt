-- ===== src/Broker/Attestation/Backed.antt =====
-- attestation.service.ts: what stands behind an accepted attestation in strict mode.
use Prim.Native.String.{String}
use sdidfy.Prelude.{
  ℕ, ◌≡◌, refl, sym, ap, ◌∙◌, Bool, true, false, List, Option, none, some, if◌then◌else◌, Result,
  ok, err, arith, ok-injective,
}
use sdidfy.Shared.Assurance.{al2}
use sdidfy.Shared.Errors.{Thrown}
use sdidfy.Attestation.Verdict.{
  Platform, android, ios, DeviceKey, AttestationRequest, AttestationAccepted, AttestationResult,
  KeySecurityLevel,
}
use sdidfy.Attestation.Node.{Certificate}
use sdidfy.Attestation.AuthData.{AttestationObject, AuthenticatorData}
use sdidfy.Attestation.PlayIntegrity.{AndroidVerifier, verify_play_integrity}
use sdidfy.Attestation.PlayIntegrity.Genuine.{HasHardwareKey, verify_play_integrity-IsFit}
use sdidfy.Attestation.AppAttest.{IosVerifier, verify_app_attest}
use sdidfy.Attestation.AppAttest.Genuine.{IsGenuineIos, verify_app_attest-IsGenuineIos}
use sdidfy.Broker.World.{World}
use sdidfy.Broker.Handler.{Handler, >>=-returns}
use sdidfy.Broker.Challenge.{consume_attestation_nonce}
use sdidfy.Broker.Attestation.{
  AttestationInput, AttestationVerdict, Gate, rejected, unavailable, is_unavailable, run_verifier,
  judge, request_of, present_to_verifier, verify_strict, verify_mock, verify_attestation,
}
use sdidfy.Broker.Attestation.Strict.{verify_strict-accepted}

abbrev pub IsBacked : Gate → Platform → AttestationRequest → Type 0
IsBacked gate android request =
    (a : AndroidVerifier) × (i : IosVerifier) × (level : KeySecurityLevel) × (gate.verifiers
      ≡ some (a, i))
    × HasHardwareKey gate.crypto a request level
IsBacked gate ios request =
    (a : AndroidVerifier) × (i : IosVerifier) × (gate.verifiers ≡ some (a, i))
    × (object : AttestationObject) × (cert : Certificate) × (certs : List Certificate)
    × (auth : AuthenticatorData) × IsGenuineIos gate.crypto i request object cert certs auth

judge-returns :
    (o : Option AttestationResult) (u w : World) {a : AttestationAccepted}
    → judge o u ≡ (ok a, w)
    → o ≡ some (ok a)
judge-returns none u w h = cc
judge-returns (some (ok b)) u w h = cc
judge-returns (some (err code)) u w h = refused (is_unavailable code) h
  where
    refused :
        (b : Bool) {a : AttestationAccepted} {o : Option AttestationResult}
        → (if b then unavailable else rejected) u ≡ (ok a, w)
        → o ≡ some (ok a)
    refused true h = cc
    refused false h = cc

run_verifier-IsBacked :
    (gate : Gate) (verifiers : Option (AndroidVerifier × IosVerifier)) (p : Platform)
    (r : AttestationRequest) (a : AttestationAccepted)
    → gate.verifiers ≡ verifiers
    → run_verifier gate p r ≡ some (ok a)
    → a.assurance_cap ≡ al2
    → IsBacked gate p r
unfolding run_verifier
run_verifier-IsBacked gate none p r a is e capped = absurd (ground (arith, is, e))
run_verifier-IsBacked gate (some (x, i)) android r a is e capped =
    let accepted : verify_play_integrity gate.crypto x r ≡ ok a = cc in
    (
      x,
      i,
      a.key_security_level,
      is,
      (verify_play_integrity-IsFit gate.crypto x r a accepted).1 capped,
    )
run_verifier-IsBacked gate (some (x, i)) ios r a is e capped =
    let accepted : verify_app_attest gate.crypto i r ≡ ok a = cc in
    let (object, cert, certs, auth, genuine) =
      verify_app_attest-IsGenuineIos gate.crypto i r a accepted in
    (x, i, is, object, cert, certs, auth, genuine)

present_to_verifier-IsBacked :
    (gate : Gate) (p : Platform) (r : AttestationRequest) (u w : World) (v : AttestationVerdict)
    → present_to_verifier gate p r u ≡ (ok v, w)
    → v.assurance_cap ≡ al2
    → IsBacked gate p r
unfolding present_to_verifier
present_to_verifier-IsBacked gate p r u w v h capped =
    let (a, (u1, judged, returned)) = >>=-returns (judge (run_verifier gate p r)) _ u w h in
    let kept : a.assurance_cap ≡ v.assurance_cap =
      ap (λ (x : AttestationVerdict). x.assurance_cap)
        (ok-injective (ap (λ (x : Result Thrown AttestationVerdict × World). x.0) returned)) in
    run_verifier-IsBacked gate gate.verifiers p r a refl
      (judge-returns (run_verifier gate p r) u u1 judged) (kept ∙ capped)

in_strict_mode :
    (b : Bool) {A : Type 0} (m n : Handler A) (w : World) → b ≡ true → (if b then m else n) w ≡ m w
in_strict_mode true m n w e = refl
in_strict_mode false m n w e = cc

-- In strict mode the cap AL2 is given only where the nonce was kept under the id that was sent, and
-- a genuine hardware attestation carries that nonce and covers the key being enrolled.
pub verify_attestation-IsBacked :
    (gate : Gate) (now : ℕ) (input : AttestationInput) (key : DeviceKey) (w w' : World)
    (v : AttestationVerdict)
    → gate.strict ≡ true
    → verify_attestation gate now input key w ≡ (ok v, w')
    → v.assurance_cap ≡ al2
    → (p : Platform) × (nonce_id : String) × (nonce : String) × (input.nonce_id ≡ some nonce_id)
      × ((consume_attestation_nonce now nonce_id w).0 ≡ ok nonce)
      × IsBacked gate p (request_of input key now nonce)
unfolding verify_attestation
verify_attestation-IsBacked gate now input key w w' v strict e capped =
    let ran =
      sym (
        in_strict_mode gate.strict (verify_strict gate now input key) (verify_mock gate now input) w
          strict)
      ∙ e in
    let (p, id, nonce, known, given, kept, presented) =
      verify_strict-accepted gate now input key w w' v ran in
    (
      p,
      id,
      nonce,
      given,
      kept,
      present_to_verifier-IsBacked gate p (request_of input key now nonce)
          (consume_attestation_nonce now id w).1 w' v presented capped,
    )
