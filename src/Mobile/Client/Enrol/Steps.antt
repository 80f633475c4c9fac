-- ===== src/Mobile/Client/Enrol/Steps.antt =====
-- client.ts: the steps of `enrol`, read backwards from a run that returned.
use Prim.Native.String.{String}
use sdidfy.Prelude.{
  ◌+◌, ◌-◌, ◌≤◌, ◌≡◌, refl, ap, ◌∙◌, Bool, true, false, not, List, ◌∷◌, Option, none, some, Result,
  ok, err, arith, ltb,
}
use sdidfy.Mobile.Errors.{MobileError}
use sdidfy.Mobile.Wire.{
  Call, Reply, Remote, StartBody, Started, send_start, nonce_reply, started_reply, activated_reply,
  as_nonce, as_started, as_activated,
}
use sdidfy.Mobile.Client.{Phone, lift_app, call}
use sdidfy.Mobile.Client.Runs.{>>=-then, Logged, same_log, lift_app-returns, call-returns}
use sdidfy.Mobile.Client.Enrol.{
  Device, EnrolmentSample, KeyStoreCapabilities, BiometricCapabilities, security_rank, refuse_app,
  assert_security_level, assert_biometrics, assert_device_can_enrol, take_sample, dispose,
  send_sample, submit_sample,
}

module _ {sent : List Call} {signed : List String} {s t : Phone} (log : Logged sent signed s) where
  pub refuse_app-returns :
      (b : Bool) (e : MobileError)
      → refuse_app b e s ≡ (ok tt, t)
      → (b ≡ false) × Logged sent signed t
  refuse_app-returns true e h = cc
  refuse_app-returns false e h = (refl, same_log (cc) log)

  take_sample-returns :
      (captured : Result MobileError EnrolmentSample) {sample : EnrolmentSample}
      → take_sample captured s ≡ (ok sample, t)
      → (captured ≡ ok sample) × Logged sent signed t
  take_sample-returns (err e) h = cc
  take_sample-returns (ok sample) h =
      let after : t ≡ record s { open_samples = s.open_samples + 1 } = cc in
      (
        cc,
        record {
          sent_is = ap (λ (x : Phone). x.sent) after ∙ log.sent_is;
          signed_is = ap (λ (x : Phone). x.signed) after ∙ log.signed_is;
        },
      )

  dispose-returns : dispose s ≡ (ok tt, t) → Logged sent signed t
  dispose-returns h =
      let after : t ≡ record s { open_samples = s.open_samples - 1 } = cc in
      record {
        sent_is = ap (λ (x : Phone). x.sent) after ∙ log.sent_is;
        signed_is = ap (λ (x : Phone). x.signed) after ∙ log.signed_is;
      }

  send_sample-returns :
      (remote : Remote) (body : String → StartBody) (encoded : Result MobileError String)
      {reply : Reply}
      → send_sample remote body encoded s ≡ (ok (ok reply), t)
      → (dto : String) × (encoded ≡ ok dto)
        × (remote.broker sent (send_start (body dto)) ≡ ok reply)
        × Logged (send_start (body dto) ∷ sent) signed t
  send_sample-returns remote body (err e) h = cc
  send_sample-returns remote body (ok dto) {reply} h =
      let answered : call remote (send_start (body dto)) s ≡ (ok reply, t) = cc in
      let (answer, logged) = call-returns log remote (send_start (body dto)) answered in
      (dto, refl, answer, logged)

pub as_nonce-eq-ok :
    (reply : Reply) (given : String × String)
    → as_nonce reply ≡ ok given
    → reply ≡ nonce_reply given.0 given.1
as_nonce-eq-ok reply given h = ground arith

as_started-eq-ok :
    (reply : Reply) (started : Started)
    → as_started reply ≡ ok started
    → reply ≡ started_reply started
as_started-eq-ok reply started h = ground arith

pub as_activated-eq-ok :
    (reply : Reply) (id : String) → as_activated reply ≡ ok id → reply ≡ activated_reply id
as_activated-eq-ok reply id h = ground arith

-- The biometrics of the phone, where the app has them, are strong.
abbrev pub IsStrong : Option (Result MobileError BiometricCapabilities) → Type 0
IsStrong none = Unit {0}
IsStrong (some answer) =
    (caps : BiometricCapabilities) × (answer ≡ ok caps)
    × (caps.available ≡ true)
    × (caps.enrolled ≡ true)
    × (caps.strong ≡ true)

assert_biometrics-IsStrong :
    (o : Option (Result MobileError BiometricCapabilities)) (sent : List Call)
    (signed : List String) (s t : Phone)
    → Logged sent signed s
    → assert_biometrics o s ≡ (ok tt, t)
    → IsStrong o × Logged sent signed t
assert_biometrics-IsStrong none sent signed s t log h = (tt, same_log (cc) log)
assert_biometrics-IsStrong (some answer) sent signed s t log h =
    >>=-then (lift_app answer) _ s t h λ caps u1 ran1 h1.
      >>=-then (refuse_app (not caps.available) _) _ u1 t h1 λ _ u2 ran2 h2.
        >>=-then (refuse_app (not caps.enrolled) _) _ u2 t h2 λ _ u3 ran3 h3.
          let (is, log1) = lift_app-returns log answer ran1 in
          let (available, log2) = refuse_app-returns log1 (not caps.available) _ ran2 in
          let (enrolled, log3) = refuse_app-returns log2 (not caps.enrolled) _ ran3 in
          let (strong, log4) = refuse_app-returns log3 (not caps.strong) _ h3 in
          (
            (caps, is, ground (arith, available), ground (arith, enrolled), ground (arith, strong)),
            log4,
          )

abbrev pub IsCapable : Device → Type 0
IsCapable device =
    ((caps : KeyStoreCapabilities) × (device.key_capabilities ≡ ok caps)
      × (caps.available ≡ true)
      × (security_rank device.min_security ≤ security_rank caps.security_level))
    × IsStrong device.biometrics

pub assert_device_can_enrol-IsCapable :
    (device : Device) (sent : List Call) (signed : List String) (s t : Phone)
    → Logged sent signed s
    → assert_device_can_enrol device s ≡ (ok tt, t)
    → IsCapable device × Logged sent signed t
unfolding assert_device_can_enrol
assert_device_can_enrol-IsCapable device sent signed s t log h =
    >>=-then (lift_app device.key_capabilities) _ s t h λ caps u1 ran1 h1.
      >>=-then (refuse_app (not caps.available) _) _ u1 t h1 λ _ u2 ran2 h2.
        >>=-then (assert_security_level device.min_security caps.security_level) _ u2 t h2
          λ _ u3 ran3 h3.
            let (is, log1) = lift_app-returns log device.key_capabilities ran1 in
            let (available, log2) = refuse_app-returns log1 (not caps.available) _ ran2 in
            let (high, log3) =
              refuse_app-returns log2
                (ltb (security_rank caps.security_level) (security_rank device.min_security)) _
                ran3 in
            let (strong, log4) =
              assert_biometrics-IsStrong device.biometrics sent signed u3 t log3 h3 in
            (((caps, is, ground (arith, available), ground (arith, high)), strong), log4)

-- The sample goes out in one request, and the answer to it is what comes back.
pub submit_sample-returns :
    (remote : Remote) (captured : Result MobileError EnrolmentSample) (body : String → StartBody)
    {sent : List Call} {signed : List String} {s t : Phone} {started : Started}
    → Logged sent signed s
    → submit_sample remote captured body s ≡ (ok started, t)
    → (dto : String) × (remote.broker sent (send_start (body dto)) ≡ ok (started_reply started))
      × Logged (send_start (body dto) ∷ sent) signed t
unfolding submit_sample
submit_sample-returns remote captured body {sent} {signed} {s} {t} {started} log h =
    >>=-then (take_sample captured) _ s t h λ sample u1 ran1 h1.
      >>=-then (send_sample remote body sample.to_dto) _ u1 t h1 λ outcome u2 ran2 h2.
        >>=-then dispose _ u2 t h2 λ _ u3 ran3 h3.
          >>=-then (lift_app outcome) _ u3 t h3 λ reply u4 ran4 h4.
            let came : outcome ≡ ok reply =
              ap (λ (x : Result MobileError Reply × Phone). x.0) ran4 in
            let (taken, log1) = take_sample-returns log captured ran1 in
            let (dto, encoded, answer, log2) =
              send_sample-returns log1 remote body sample.to_dto
                (ran2 ∙ ap (λ (r : Result MobileError Reply). (ok r, u2)) came) in
            let log3 = dispose-returns log2 ran3 in
            let (_, log4) = lift_app-returns log3 outcome ran4 in
            let (read, log5) = lift_app-returns log4 (as_started reply) h4 in
            (dto, answer ∙ ap ok (as_started-eq-ok reply started read), log5)
