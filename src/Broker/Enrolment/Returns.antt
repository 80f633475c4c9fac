-- ===== src/Broker/Enrolment/Returns.antt =====
-- The steps of `start` of apps/broker/src/modules/enrolment/enrolment.service.ts, read backwards from
-- an enrolment that was started.
use Prim.Native.String.{String, ◌++◌}
use sdidfy.Prelude.{
  ℕ, ◌≡◌, refl, sym, ap, ◌∙◌, Bool, true, false, none, some, Result, ok, err, arith, same_iff,
  ok-injective,
}
use sdidfy.Shared.Assurance.{AssuranceLevel}
use sdidfy.Shared.Errors.{ErrorCode, Thrown, invalid_request}
use sdidfy.Shared.Protocol.{ChallengePurpose, activation}
use sdidfy.MatchEngine.{BiometricReference, MatchResult, match}
use sdidfy.Broker.World.{World}
use sdidfy.Broker.Table.{first}
use sdidfy.Broker.Handler.{
  Handler, ◌>>=◌, >>=-returns, >>=-then, attempt, refuse_if, lift, answer_of, state_of,
  attempt-returns,
}
use sdidfy.Broker.Environment.{Environment}
use sdidfy.Broker.RateLimit.{hit, assert_not_locked_out}
use sdidfy.Broker.Challenge.{IssuedChallenge, issue}
use sdidfy.Broker.Devices.{named}
use sdidfy.Broker.Attestation.{AttestationVerdict, Gate, verify_attestation}
use sdidfy.Broker.Enrolment.{
  StartRequest, ReferenceAnswer, reference_found, FreshNames, device_key_of, check_attestation,
  enrol_max_failures, obtain_reference, fail_with, fail_enrolment, judge_match, is_proved,
  upsert_citizen, new_binding, check_cap, add_binding, create_binding, start,
}

-- The limits and the lockout touch no nonce.
hit-nonces :
    (now : ℕ) (key : String) (limit seconds : ℕ) (w : World)
    → (hit now key limit seconds w).1.attestation_nonces ≡ w.attestation_nonces
unfolding hit ◌>>=◌
hit-nonces now key limit seconds w = ground arith

assert_not_locked_out-nonces :
    (now : ℕ) (key : String) (most : ℕ) (w : World)
    → (assert_not_locked_out now key most w).1.attestation_nonces ≡ w.attestation_nonces
unfolding assert_not_locked_out ◌>>=◌
assert_not_locked_out-nonces now key most w = ground arith

create_binding-row :
    (now : ℕ) (binding_id citizen_id : String) (req : StartRequest) (level : AssuranceLevel)
    (txn_ref : String) (u w : World)
    → create_binding now binding_id citizen_id req level txn_ref u ≡ (ok tt, w)
    → first (named binding_id) w.bindings ≡ some (new_binding now binding_id citizen_id req level)
unfolding create_binding check_cap add_binding ◌>>=◌
create_binding-row now binding_id citizen_id req level txn_ref u w h =
    ground (arith, h, (same_iff binding_id binding_id).1 refl)

check_attestation-returns :
    (pseudo_nid : String) (r : Result Thrown AttestationVerdict) (u w : World)
    {verdict : AttestationVerdict}
    → check_attestation pseudo_nid r u ≡ (ok verdict, w)
    → r ≡ ok verdict
unfolding ◌>>=◌
check_attestation-returns pseudo_nid (ok v) u w h = cc
check_attestation-returns pseudo_nid (err e) u w h = cc

fail_with-fails :
    {A : Type 0} (m : Handler Thrown) (u w : World) {a : A} → ¬ (fail_with m u ≡ (ok a, w))
fail_with-fails m u w h = let (e, (v, ran, threw)) = >>=-returns m (λ x. lift (err x)) u w h in cc

obtain_reference-returns :
    (now : ℕ) (pseudo_nid : String) (answer : ReferenceAnswer) (u w : World)
    {found : BiometricReference × (String × String)}
    → obtain_reference now pseudo_nid answer u ≡ (ok found, w)
    → answer ≡ reference_found found.0 found.1.0 found.1.1
unfolding ◌>>=◌
obtain_reference-returns now pseudo_nid (reference_found r s t) u w h = cc
obtain_reference-returns now pseudo_nid ReferenceAnswer.identity_unknown u w h =
    absurd
      (fail_with-fails (fail_enrolment now pseudo_nid "sdid_identity_not_matchable" none) u w h)
obtain_reference-returns now pseudo_nid ReferenceAnswer.identity_unavailable u w h = cc
obtain_reference-returns now pseudo_nid ReferenceAnswer.answer_failed u w h = cc

judge_match-returns :
    (now : ℕ) (pseudo_nid txn_ref : String) (m : MatchResult) (u w : World)
    → judge_match now pseudo_nid txn_ref m u ≡ (ok tt, w)
    → is_proved m ≡ true
unfolding ◌>>=◌
judge_match-returns now pseudo_nid txn_ref m u w h = ground (arith, h)

refuse_if-returns :
    (b : Bool) (code : ErrorCode) (http : ℕ) (u w : World)
    → refuse_if b code http u ≡ (ok tt, w)
    → (b ≡ false) × (w ≡ u)
refuse_if-returns true code http u w h = cc
refuse_if-returns false code http u w h = (refl, cc)

issue-bindings :
    (env : Environment) (now : ℕ) (challenge_id nonce : String) (purpose : ChallengePurpose)
    (binding_id : String) (w : World)
    → (issue env now challenge_id nonce purpose binding_id w).1.bindings ≡ w.bindings
unfolding issue ◌>>=◌
issue-bindings env now challenge_id nonce purpose binding_id w = refl

-- The biometric comparison succeeded on the reference that SDID answered with.
abbrev pub IsMatched : StartRequest → ReferenceAnswer → Type 0
IsMatched req answer =
    (r : BiometricReference) × (subject : String) × (txn_ref : String) × (answer
      ≡ reference_found r subject txn_ref)
    × (is_proved (match req.sample r).0 ≡ true)

abbrev pub Binds : ℕ → FreshNames → StartRequest → AssuranceLevel → World → Type 0
Binds now fresh req level w =
    (citizen_id : String) × (first (named fresh.binding_id) w.bindings
      ≡ some (new_binding now fresh.binding_id citizen_id req level))

-- The three steps before the gate.
limits-nonces :
    (now : ℕ) (req : StartRequest) (w u1 u2 u3 : World) (a b c : Unit {0})
    → hit now ("enrol:nid:" ++ req.pseudo_nid) 5 3600 w ≡ (ok a, u1)
    → hit now ("enrol:ip:" ++ req.ip) 20 3600 u1 ≡ (ok b, u2)
    → assert_not_locked_out now ("enrol:nid:" ++ req.pseudo_nid) enrol_max_failures u2 ≡ (ok c, u3)
    → u3.attestation_nonces ≡ w.attestation_nonces
limits-nonces now req w u1 u2 u3 a b c first_ran second_ran third_ran =
    let nid = "enrol:nid:" ++ req.pseudo_nid in
    let one = hit-nonces now nid 5 3600 w in
    let two = hit-nonces now ("enrol:ip:" ++ req.ip) 20 3600 u1 in
    let three = assert_not_locked_out-nonces now nid enrol_max_failures u2 in
    let nonces = λ (x : World). x.attestation_nonces in
    ap nonces (sym (state_of _ third_ran))
    ∙ three
    ∙ ap nonces (sym (state_of _ second_ran))
    ∙ two
    ∙ ap nonces (sym (state_of _ first_ran))
    ∙ one

-- The last step returns the level of the verdict, and leaves the bindings alone.
issued-Binds :
    (env : Environment) (now : ℕ) (fresh : FreshNames) (req : StartRequest)
    (granted level : AssuranceLevel) (challenge issued : IssuedChallenge)
    (citizen_id txn_ref : String) (u9 u10 u11 w' : World)
    → create_binding now fresh.binding_id citizen_id req granted txn_ref u9 ≡ (ok tt, u10)
    → issue env now fresh.challenge_id fresh.nonce activation fresh.binding_id u10
      ≡ (ok issued, u11)
    → ◌≡◌ {A = Result Thrown (AssuranceLevel × IssuedChallenge) × World}
        (ok (granted, issued), u11)
        (ok (level, challenge), w')
    → (granted ≡ level) × Binds now fresh req level w'
issued-Binds env now fresh req granted level challenge issued citizen_id txn_ref u9 u10 u11 w' bound
      asked returned =
    let row = create_binding-row now fresh.binding_id citizen_id req granted txn_ref u9 u10 bound in
    let kept =
      issue-bindings env now fresh.challenge_id fresh.nonce activation fresh.binding_id u10 in
    let bindings = λ (x : World). x.bindings in
    let level_is : granted ≡ level =
      ap (λ (x : AssuranceLevel × IssuedChallenge). x.0) (ok-injective (answer_of _ returned)) in
    let after : w'.bindings ≡ u10.bindings =
      ap bindings (sym (state_of _ returned)) ∙ ap bindings (sym (state_of _ asked)) ∙ kept in
    (
      level_is,
      (
        citizen_id,
        ap (first (named fresh.binding_id)) after
            ∙ row
            ∙ ap (λ (x : AssuranceLevel). some (new_binding now fresh.binding_id citizen_id req x))
                level_is,
      ),
    )

-- What a started enrolment rests on.
pub start-returns :
    (env : Environment) (gate : Gate) (now : ℕ) (fresh : FreshNames) (req : StartRequest)
    (answer : ReferenceAnswer) (level : AssuranceLevel) (challenge : IssuedChallenge) (w w' : World)
    → start env gate now fresh req answer w ≡ (ok (level, challenge), w')
    → (verdict : AttestationVerdict) × (u : World) × (v : World) × (u.attestation_nonces
        ≡ w.attestation_nonces)
      × (verify_attestation gate now req.attestation (device_key_of req.device_pubkey) u
          ≡ (ok verdict, v))
      × (verdict.assurance_cap ≡ level)
      × (req.is_fingerprint ≡ false)
      × IsMatched req answer
      × Binds now fresh req level w'
unfolding start
start-returns env gate now fresh req answer level challenge w w' h =
    let nid = "enrol:nid:" ++ req.pseudo_nid in
    let verify = verify_attestation gate now req.attestation (device_key_of req.device_pubkey) in
    >>=-then (hit now nid 5 3600) _ w w' h λ _ u1 ran1 h1.
      >>=-then (hit now ("enrol:ip:" ++ req.ip) 20 3600) _ u1 w' h1 λ _ u2 ran2 h2.
        >>=-then (assert_not_locked_out now nid enrol_max_failures) _ u2 w' h2 λ _ u3 ran3 h3.
          >>=-then (attempt verify) _ u3 w' h3 λ tried u4 ran4 h4.
            >>=-then (check_attestation req.pseudo_nid tried) _ u4 w' h4 λ verdict u5 ran5 h5.
              >>=-then (refuse_if req.is_fingerprint invalid_request 400) _ u5 w' h5 λ _ u6 ran6 h6.
                >>=-then (obtain_reference now req.pseudo_nid answer) _ u6 w' h6 λ found u7 ran7 h7.
                  >>=-then (judge_match now req.pseudo_nid found.1.1 (match req.sample found.0).0) _
                    u7 w' h7
                    λ _ u8 ran8 h8.
                      >>=-then (upsert_citizen fresh.citizen_id req.pseudo_nid found.1.0) _ u8 w' h8
                        λ citizen_id u9 ran9 h9.
                          >>=-then
                            (create_binding now fresh.binding_id citizen_id req
                              verdict.assurance_cap found.1.1)
                            _ u9 w' h9
                            λ _ u10 ran10 h10.
                              >>=-then
                                (issue env now fresh.challenge_id fresh.nonce activation
                                  fresh.binding_id)
                                _ u10 w' h10
                                λ issued u11 ran11 h11.
                                  let accepted =
                                    check_attestation-returns req.pseudo_nid tried u4 u5 ran5 in
                                  let (capped, binds) =
                                    issued-Binds env now fresh req verdict.assurance_cap level
                                      challenge issued citizen_id found.1.1 u9 u10 u11 w' ran10
                                      ran11 h11 in
                                  (
                                    verdict,
                                    u3,
                                    u4,
                                    limits-nonces now req w u1 u2 u3 _ _ _ ran1 ran2 ran3,
                                    attempt-returns verify u3 u4 ran4
                                        ∙ ap (λ (r : Result Thrown AttestationVerdict). (r, u4))
                                            accepted,
                                    capped,
                                    (refuse_if-returns req.is_fingerprint invalid_request 400 u5 u6
                                        ran6).0,
                                    (
                                      found.0,
                                      found.1.0,
                                      found.1.1,
                                      obtain_reference-returns now req.pseudo_nid answer u6 u7 ran7,
                                      judge_match-returns now req.pseudo_nid found.1.1
                                          (match req.sample found.0).0 u7 u8 ran8,
                                    ),
                                    binds,
                                  )
