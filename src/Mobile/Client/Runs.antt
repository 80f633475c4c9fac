-- ===== src/Mobile/Client/Runs.antt =====
-- client.ts: the steps of an action of the app, read backwards from a run that returned.
use Prim.Native.String.{String}
use sdidfy.Prelude.{
  resumes-then, ◌≡◌, sym, ap, ◌∙◌, if◌then◌else◌, Bool, true, false, not, List, ◌∷◌, Result, ok,
  err, same,
}
use sdidfy.Shared.Protocol.{ChallengePurpose, build_challenge_payload}
use sdidfy.Mobile.Errors.{MobileError}
use sdidfy.Mobile.Wire.{Call, Reply, Remote}
use sdidfy.Mobile.Client.{App, Phone, ◌>>=◌, lift_app, call, expect_payload, sign}

-- The first of two actions returned, and the second one went on from there.
pub >>=-then :
    {A B : Type 0} {C : Type 0} (m : App A) (f : A → App B) (s t : Phone) {b : B}
    → (m >>= f) s ≡ (ok b, t)
    → ((a : A) (u : Phone) → m s ≡ (ok a, u) → f a u ≡ (ok b, t) → C)
    → C
unfolding ◌>>=◌
>>=-then m f s t h k = resumes-then f (m s) h k

-- What was sent and signed so far.
pub record Logged (sent : List Call) (signed : List String) (s : Phone) : Type 0 where
  pub sent_is : s.sent ≡ sent
  pub signed_is : s.signed ≡ signed

pub same_log :
    {s t : Phone} {sent : List Call} {signed : List String}
    → t ≡ s
    → Logged sent signed s
    → Logged sent signed t
same_log e log = record {
  sent_is = ap (λ (x : Phone). x.sent) e ∙ log.sent_is;
  signed_is = ap (λ (x : Phone). x.signed) e ∙ log.signed_is;
}

module _ {sent : List Call} {signed : List String} {s t : Phone} (log : Logged sent signed s) where
  pub lift_app-returns :
      {A : Type 0} (r : Result MobileError A) {a : A}
      → lift_app r s ≡ (ok a, t)
      → (r ≡ ok a) × Logged sent signed t
  lift_app-returns r h = (cc, same_log (cc) log)

  pub call-returns :
      (remote : Remote) (c : Call) {reply : Reply}
      → call remote c s ≡ (ok reply, t)
      → (remote.broker sent c ≡ ok reply) × Logged (c ∷ sent) signed t
  call-returns remote c h =
      let after : t ≡ record s { sent = c ∷ s.sent } = cc in
      let answer : remote.broker s.sent c ≡ ok _ = cc in
      (
        ap (λ (l : List Call). remote.broker l c) (sym log.sent_is) ∙ answer,
        record {
          sent_is = ap (λ (x : Phone). x.sent) after ∙ ap (λ (l : List Call). c ∷ l) log.sent_is;
          signed_is = ap (λ (x : Phone). x.signed) after ∙ log.signed_is;
        },
      )

  pub sign-returns :
      (remote : Remote) (payload : String) {signature : String}
      → sign remote payload s ≡ (ok signature, t)
      → (remote.key_store signed payload ≡ ok signature) × Logged sent (payload ∷ signed) t
  unfolding sign
  sign-returns remote payload h =
      let after : t ≡ record s { signed = payload ∷ s.signed } = cc in
      let answer : remote.key_store s.signed payload ≡ ok _ = cc in
      (
        ap (λ (l : List String). remote.key_store l payload) (sym log.signed_is) ∙ answer,
        record {
          sent_is = ap (λ (x : Phone). x.sent) after ∙ log.sent_is;
          signed_is =
              ap (λ (x : Phone). x.signed) after
              ∙ ap (λ (l : List String). payload ∷ l) log.signed_is;
        },
      )

  pub expect_payload-returns :
      (purpose : ChallengePurpose) (challenge_id nonce given : String) {payload : String}
      → expect_payload purpose challenge_id nonce given s ≡ (ok payload, t)
      → (payload ≡ build_challenge_payload purpose challenge_id nonce) × Logged sent signed t
  unfolding expect_payload
  expect_payload-returns purpose challenge_id nonce given h =
      let (is, kept) =
        checked (same (build_challenge_payload purpose challenge_id nonce) given)
          (build_challenge_payload purpose challenge_id nonce) _ h in
      (is, same_log kept log)
    where
      checked :
          (b : Bool) (expected : String) (e : MobileError) {payload : String}
          → ◌≡◌ {A = Result MobileError String × Phone}
              (if not b then (err e, s) else (ok expected, s))
              (ok payload, t)
          → (payload ≡ expected) × (t ≡ s)
      checked true expected e h = (cc, cc)
      checked false expected e h = cc
