-- ===== src/Mobile/Client/Enrol/Settles.antt =====
-- client.ts: what `enrol` leaves on the phone, however it ends.
use Prim.Native.String.{String}
use sdidfy.Prelude.{
  ◌≡◌, refl, ap, ◌∙◌, Bool, true, false, not, Option, none, some, Result, ok, err, arith,
}
use sdidfy.Shared.Assurance.{AssuranceLevel}
use sdidfy.Shared.Protocol.{ChallengePurpose, activation}
use sdidfy.Mobile.Errors.{MobileError}
use sdidfy.Mobile.Wire.{
  Call, Remote, StartBody, Started, ask_attestation_nonce, send_activation, as_nonce, as_activated,
}
use sdidfy.Mobile.Client.{App, Phone, ◌>>=◌, ◌>>◌, resume_app, lift_app, call, expect_payload, sign}
use sdidfy.Mobile.Client.Enrol.{
  Device, EnrolInput, EnrolmentSample, BiometricCapabilities, refuse_app, assert_biometrics,
  assert_device_can_enrol, save_binding, submit_sample, activate_binding, enrol,
}

-- The action touches neither the binding nor the samples.
pub record Neutral {A : Type 0} (m : App A) : Type 0 where
  pub binding_kept : (s : Phone) → (m s).1.binding ≡ s.binding
  pub samples_kept : (s : Phone) → (m s).1.open_samples ≡ s.open_samples

-- The binding after an enrolment: the new one if it succeeded, else the old one.
abbrev pub binding_after :
    Result MobileError (String × AssuranceLevel) → Option String → Option String
binding_after (ok enrolled) old = some enrolled.0
binding_after (err e) old = old

-- The rest of an enrolment that leaves nothing open.
pub record Settles (m : App (String × AssuranceLevel)) : Type 0 where
  pub binding_settled : (s : Phone) → (m s).1.binding ≡ binding_after (m s).0 s.binding
  pub samples_settled : (s : Phone) → (m s).1.open_samples ≡ s.open_samples

lift_app-Neutral : {A : Type 0} (r : Result MobileError A) → Neutral (lift_app r)
lift_app-Neutral r = record { binding_kept = λ s. refl; samples_kept = λ s. refl }

refuse_app-Neutral : (b : Bool) (e : MobileError) → Neutral (refuse_app b e)
refuse_app-Neutral true e = record { binding_kept = λ s. refl; samples_kept = λ s. refl }
refuse_app-Neutral false e = record { binding_kept = λ s. refl; samples_kept = λ s. refl }

call-Neutral : (remote : Remote) (c : Call) → Neutral (call remote c)
call-Neutral remote c = record { binding_kept = λ s. refl; samples_kept = λ s. refl }

sign-Neutral : (remote : Remote) (payload : String) → Neutral (sign remote payload)
unfolding sign
sign-Neutral remote payload = record { binding_kept = λ s. refl; samples_kept = λ s. refl }

expect_payload-Neutral :
    (purpose : ChallengePurpose) (challenge_id nonce given : String)
    → Neutral (expect_payload purpose challenge_id nonce given)
unfolding expect_payload
expect_payload-Neutral purpose challenge_id nonce given = record {
  binding_kept = λ s. ground arith;
  samples_kept = λ s. ground arith;
}

>>=-Neutral :
    {A B : Type 0} {m : App A} {f : A → App B}
    → Neutral m
    → ((a : A) → Neutral (f a))
    → Neutral (m >>= f)
unfolding ◌>>=◌
>>=-Neutral {A} {B} {m} {f} first rest = record {
  binding_kept = λ s. go_binding (m s) ∙ first.binding_kept s;
  samples_kept = λ s. go_samples (m s) ∙ first.samples_kept s;
}
  where
    go_binding : (r : Result MobileError A × Phone) → (resume_app f r).1.binding ≡ r.1.binding
    go_binding (ok a, t) = (rest a).binding_kept t
    go_binding (err e, t) = refl

    go_samples :
        (r : Result MobileError A × Phone) → (resume_app f r).1.open_samples ≡ r.1.open_samples
    go_samples (ok a, t) = (rest a).samples_kept t
    go_samples (err e, t) = refl

>>=-Settles :
    {A : Type 0} {m : App A} {f : A → App (String × AssuranceLevel)}
    → Neutral m
    → ((a : A) → Settles (f a))
    → Settles (m >>= f)
unfolding ◌>>=◌
>>=-Settles {A} {m} {f} first rest = record {
  binding_settled = λ s. go_binding s.binding (m s) (first.binding_kept s);
  samples_settled = λ s. go_samples (m s) ∙ first.samples_kept s;
}
  where
    go_binding :
        (old : Option String) (r : Result MobileError A × Phone)
        → r.1.binding ≡ old
        → (resume_app f r).1.binding ≡ binding_after (resume_app f r).0 old
    go_binding old (ok a, t) e = (rest a).binding_settled t ∙ ap (binding_after (f a t).0) e
    go_binding old (err x, t) e = e

    go_samples :
        (r : Result MobileError A × Phone) → (resume_app f r).1.open_samples ≡ r.1.open_samples
    go_samples (ok a, t) = (rest a).samples_settled t
    go_samples (err e, t) = refl

assert_biometrics-Neutral :
    (o : Option (Result MobileError BiometricCapabilities)) → Neutral (assert_biometrics o)
assert_biometrics-Neutral none = lift_app-Neutral (ok tt)
assert_biometrics-Neutral (some answer) = >>=-Neutral (lift_app-Neutral answer) λ caps.
    >>=-Neutral (refuse_app-Neutral (not caps.available) _) λ _.
      >>=-Neutral (refuse_app-Neutral (not caps.enrolled) _)
        λ _. refuse_app-Neutral (not caps.strong) _

assert_device_can_enrol-Neutral : (device : Device) → Neutral (assert_device_can_enrol device)
unfolding assert_device_can_enrol
assert_device_can_enrol-Neutral device =
    >>=-Neutral (lift_app-Neutral device.key_capabilities) λ caps.
      >>=-Neutral (refuse_app-Neutral (not caps.available) _)
        λ _. >>=-Neutral (refuse_app-Neutral _ _) λ _. assert_biometrics-Neutral device.biometrics

-- Whatever the call does, the sample is disposed of.
submit_sample-Neutral :
    (remote : Remote) (captured : Result MobileError EnrolmentSample) (body : String → StartBody)
    → Neutral (submit_sample remote captured body)
unfolding submit_sample ◌>>=◌
submit_sample-Neutral remote (err e) body = record {
  binding_kept = λ s. refl;
  samples_kept = λ s. refl;
}
submit_sample-Neutral remote (ok sample) body = record {
  binding_kept = λ s. ground arith;
  samples_kept = λ s. ground arith;
}

activate_binding-Settles :
    (remote : Remote) (started : Started) → Settles (activate_binding remote started)
unfolding activate_binding ◌>>=◌
activate_binding-Settles remote started =
    >>=-Settles
      (expect_payload-Neutral activation started.challenge.challenge_id started.challenge.nonce
        started.challenge.payload)
      λ payload. >>=-Settles (sign-Neutral remote payload) λ signature.
        >>=-Settles
          (call-Neutral remote
            (send_activation started.binding_id started.challenge.challenge_id signature))
          λ done. >>=-Settles (lift_app-Neutral (as_activated done)) λ id. saved id
  where
    saved : (id : String) → Settles (save_binding id >> lift_app (ok (id, started.assurance_level)))
    saved id = record { binding_settled = λ s. refl; samples_settled = λ s. refl }

-- However an enrolment ends, whatever the broker, the key store and the platform answer: every sample
-- that it captured has been disposed of, and the binding that is stored is the one it reports if it
-- succeeded, and otherwise the one that was stored before.
pub enrol-Settles :
    (remote : Remote) (device : Device) (input : EnrolInput) (s : Phone)
    → ((enrol remote device input s).1.open_samples ≡ s.open_samples)
      × ((enrol remote device input s).1.binding
          ≡ binding_after (enrol remote device input s).0 s.binding)
unfolding enrol
enrol-Settles remote device input s = (all.samples_settled s, all.binding_settled s)
  where
    all : Settles (enrol remote device input)
    all = >>=-Settles (refuse_app-Neutral _ _) λ _.
        >>=-Settles (assert_device_can_enrol-Neutral device) λ _.
          >>=-Settles (call-Neutral remote ask_attestation_nonce) λ answer.
            >>=-Settles (lift_app-Neutral (as_nonce answer)) λ challenge.
              >>=-Settles (lift_app-Neutral (device.generate challenge.1)) λ key.
                >>=-Settles (refuse_app-Neutral _ _) λ _.
                  >>=-Settles (lift_app-Neutral (device.attest challenge.1 key)) λ attested.
                    >>=-Settles (submit_sample-Neutral remote device.capture _)
                      λ started. activate_binding-Settles remote started
