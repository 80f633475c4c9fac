-- ===== src/Broker/Attestation/Strict.antt =====
-- attestation.service.ts: what strict mode does with a nonce.
use Prim.Native.String.{String}
use mathlib.Core.Path.{subst}
use sdidfy.Prelude.{
  ℕ, ◌≡◌, refl, sym, ap, ◌∙◌, Bool, true, false, Option, none, some, same, if◌then◌else◌, Result,
  ok, err, arith,
}
use sdidfy.Shared.Errors.{Thrown, bridge_error, attestation_rejected, challenge_invalid}
use sdidfy.Attestation.Verdict.{Platform, DeviceKey, AttestationRequest, AttestationResult}
use sdidfy.Broker.Store.{get, get-del}
use sdidfy.Broker.World.{World}
use sdidfy.Broker.Handler.{◌>>=◌, >>=-returns, attempt, pure}
use sdidfy.Broker.Challenge.{consume_attestation_nonce}
use sdidfy.Broker.Attestation.{
  AttestationInput, AttestationVerdict, Gate, platform_of, known_platform, given_nonce, or_rejected,
  rejected, run_verifier, judge, request_of, present_to_verifier, verify_strict,
}

-- No clock reading finds a nonce under this id.
abbrev pub IsSpentNonce : String → World → Type 0
IsSpentNonce nonce_id w = (now : ℕ) → get now nonce_id w.attestation_nonces ≡ none

consume_attestation_nonce-IsSpentNonce :
    (now : ℕ) (nonce_id : String) (w : World)
    → IsSpentNonce nonce_id (consume_attestation_nonce now nonce_id w).1
unfolding consume_attestation_nonce ◌>>=◌
consume_attestation_nonce-IsSpentNonce now nonce_id w later =
    ground (arith, get-del later nonce_id w.attestation_nonces)

consume_attestation_nonce-spent :
    (now : ℕ) (nonce_id : String) (w : World)
    → IsSpentNonce nonce_id w
    → (consume_attestation_nonce now nonce_id w).0 ≡ err (bridge_error challenge_invalid 400)
unfolding consume_attestation_nonce ◌>>=◌
consume_attestation_nonce-spent now nonce_id w spent = ground (arith, spent now)

verify_strict-spent :
    (gate : Gate) (now : ℕ) (input : AttestationInput) (nonce_id : String) (key : DeviceKey)
    (w : World)
    → input.nonce_id ≡ some nonce_id
    → IsSpentNonce nonce_id w
    → (verify_strict gate now input key w).0 ≡ err (bridge_error attestation_rejected 403)
unfolding verify_strict ◌>>=◌
verify_strict-spent gate now input nonce_id key w e spent =
    ground (arith, e, consume_attestation_nonce-spent now nonce_id w spent)

judge-idle : (o : Option AttestationResult) (w : World) → (judge o w).1 ≡ w
judge-idle none w = refl
judge-idle (some (ok accepted)) w = refl
judge-idle (some (err code)) w = ground arith

present_to_verifier-idle :
    (gate : Gate) (p : Platform) (r : AttestationRequest) (w : World)
    → (present_to_verifier gate p r w).1 ≡ w
unfolding present_to_verifier ◌>>=◌
present_to_verifier-idle gate p r w = ground (arith, judge-idle (run_verifier gate p r) w)

known_platform-returns :
    (o : Option Platform) (u w : World) {p : Platform}
    → known_platform o u ≡ (ok p, w)
    → (o ≡ some p) × (w ≡ u)
known_platform-returns none u w h = cc
known_platform-returns (some q) u w h = (cc, cc)

given_nonce-returns :
    (o : Option String) (u w : World) {id : String}
    → given_nonce o u ≡ (ok id, w)
    → (o ≡ some id) × (w ≡ u)
given_nonce-returns none u w h = cc
given_nonce-returns (some i) u w h = given (same i "") h
  where
    given :
        (b : Bool) {id : String}
        → (if b then rejected else pure i) u ≡ (ok id, w)
        → (◌≡◌ {A = Option String} (some i) (some id)) × (w ≡ u)
    given true h = cc
    given false h = (cc, cc)

or_rejected-returns :
    (r : Result Thrown String) (u w : World) {nonce : String}
    → or_rejected r u ≡ (ok nonce, w)
    → (r ≡ ok nonce) × (w ≡ u)
or_rejected-returns (err e) u w h = cc
or_rejected-returns (ok n) u w h = (cc, cc)

-- An accepted verification ran on a known platform, with the nonce that was kept under its id.
pub verify_strict-accepted :
    (gate : Gate) (now : ℕ) (input : AttestationInput) (key : DeviceKey) (w w' : World)
    (v : AttestationVerdict)
    → verify_strict gate now input key w ≡ (ok v, w')
    → (p : Platform) × (nonce_id : String) × (nonce : String) × (platform_of input.platform
        ≡ some p)
      × (input.nonce_id ≡ some nonce_id)
      × ((consume_attestation_nonce now nonce_id w).0 ≡ ok nonce)
      × (present_to_verifier gate p
            (request_of input key now nonce)
            (consume_attestation_nonce now nonce_id w).1
          ≡ (ok v, w'))
unfolding verify_strict
verify_strict-accepted gate now input key w w' v e =
    let (p, (u1, known, e1)) = >>=-returns (known_platform (platform_of input.platform)) _ w w' e in
    let (id, (u2, given, e2)) = >>=-returns (given_nonce input.nonce_id) _ u1 w' e1 in
    let (tried, (u3, consumed, e3)) =
      >>=-returns (attempt (consume_attestation_nonce now id)) _ u2 w' e2 in
    let (nonce, (u4, fine, e4)) = >>=-returns (or_rejected tried) _ u3 w' e3 in
    let (is_known, same1) = known_platform-returns (platform_of input.platform) w u1 known in
    let (is_given, same2) = given_nonce-returns input.nonce_id u1 u2 given in
    let (is_fine, same3) = or_rejected-returns tried u3 u4 fine in
    let start : u2 ≡ w = same2 ∙ same1 in
    let answer : (consume_attestation_nonce now id u2).0 ≡ tried = cc in
    let after : (consume_attestation_nonce now id u2).1 ≡ u3 = cc in
    let begun : u4 ≡ (consume_attestation_nonce now id w).1 =
      same3 ∙ sym after ∙ ap (λ (x : World). (consume_attestation_nonce now id x).1) start in
    (
      p,
      id,
      nonce,
      is_known,
      is_given,
      ap (λ (x : World). (consume_attestation_nonce now id x).0) (sym start) ∙ answer ∙ is_fine,
      ap (present_to_verifier gate p (request_of input key now nonce)) (sym begun) ∙ e4,
    )

-- After a verdict the nonce is gone: no later verification with it is accepted, whatever its token,
-- key and time.
pub verify_strict-once :
    (gate gate' : Gate) (now later : ℕ) (input input' : AttestationInput) (key key' : DeviceKey)
    (w w' : World) (v : AttestationVerdict)
    → verify_strict gate now input key w ≡ (ok v, w')
    → input'.nonce_id ≡ input.nonce_id
    → (verify_strict gate' later input' key' w').0 ≡ err (bridge_error attestation_rejected 403)
verify_strict-once gate gate' now later input input' key key' w w' v e same_nonce =
    let (p, id, nonce, known, given, kept, presented) =
      verify_strict-accepted gate now input key w w' v e in
    let after : (consume_attestation_nonce now id w).1 ≡ w' =
      sym (
        present_to_verifier-idle gate p (request_of input key now nonce)
          (consume_attestation_nonce now id w).1)
      ∙ ap (λ (r : Result Thrown AttestationVerdict × World). r.1) presented in
    verify_strict-spent gate' later input' id key' w' (same_nonce ∙ given)
      (subst (IsSpentNonce id) after (consume_attestation_nonce-IsSpentNonce now id w))

-- What stands behind a verdict of AL2.
