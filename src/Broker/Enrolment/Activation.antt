-- ===== src/Broker/Enrolment/Activation.antt =====
-- The activation of devices in apps/broker/src/modules/enrolment/enrolment.service.ts.
use Prim.Native.String.{String}
use sdidfy.Prelude.{
  ℕ, ◌≡◌, ◌≢◌, ◌⊎◌, ◌↔◌, ◌∙◌, refl, sym, ap, true, some, ok, err, Result, arith, same_iff, inl, inr,
  err-ne-ok,
}
use sdidfy.Shared.Protocol.{activation}
use sdidfy.Shared.Errors.{Thrown}
use sdidfy.Broker.World.{World, Binding, awaiting_activation, active}
use sdidfy.Broker.Table.{first, first-update, update}
use sdidfy.Broker.Handler.{◌>>=◌}
use sdidfy.Broker.Environment.{Environment}
use sdidfy.Broker.Challenge.{consume}
use sdidfy.Broker.Signature.{verify_device_signature}
use sdidfy.Broker.Devices.{named}
use sdidfy.Broker.Enrolment.{activate, ActivateRequest}

-- The row of a device that has proved its key.
abbrev pub activated : ℕ → Binding → Binding
activated now b = record b { status = active; activated_at = some now }

-- The device awaits activation, and its key has signed the payload of the challenge.
abbrev pub IsProved : Environment → Binding → String → String → Type 0
IsProved env b payload signature =
    (b.status ≡ awaiting_activation)
    × (b.device_pubkey.kty ≡ "EC")
    × (b.device_pubkey.crv ≡ "P-256")
    × (env.ecdsa_verifies b.device_pubkey payload signature ≡ true)

activate-answers :
    (env : Environment) (now : ℕ) (req : ActivateRequest) (b : Binding) (payload : String)
    (w : World)
    → first (named req.binding_id) w.bindings ≡ some b
    → (consume now req.challenge_id activation req.binding_id w).0 ≡ ok payload
    → ((activate env now req w).0 ≡ ok tt) ↔ IsProved env b payload req.signature
unfolding activate verify_device_signature ◌>>=◌
activate-answers env now req b payload w found live =
    ground
      (arith, found, live, same_iff b.device_pubkey.kty "EC", same_iff b.device_pubkey.crv "P-256")

consume-bindings :
    (now : ℕ) (challenge_id binding_id : String) (w : World)
    → (consume now challenge_id activation binding_id w).1.bindings ≡ w.bindings
unfolding consume ◌>>=◌
consume-bindings now challenge_id binding_id w = ground arith

-- Either way of an activation in the table of the bindings.
abbrev pub Outcome : Environment → ℕ → ActivateRequest → Binding → World → Type 0
Outcome env now req b w =
    (((activate env now req w).0 ≡ ok tt)
      × (first (named req.binding_id) (activate env now req w).1.bindings ≡ some (activated now b)))
    ⊎ (((activate env now req w).0 ≢ ok tt) × ((activate env now req w).1.bindings ≡ w.bindings))

module _ (env : Environment) (now : ℕ) (req : ActivateRequest) (b : Binding) (payload : String)
    (w : World) (found : first (named req.binding_id) w.bindings ≡ some b)
    (live : (consume now req.challenge_id activation req.binding_id w).0 ≡ ok payload) where
  activate-returned :
      (activate env now req w).0 ≡ ok tt
      → (activate env now req w).1.bindings
        ≡ update (named req.binding_id) (activated now) w.bindings
  unfolding activate verify_device_signature ◌>>=◌
  activate-returned h =
      ground (arith, found, live, h, consume-bindings now req.challenge_id req.binding_id w)

  activate-refused :
      (e : Thrown)
      → (activate env now req w).0 ≡ err e
      → (activate env now req w).1.bindings ≡ w.bindings
  unfolding activate verify_device_signature ◌>>=◌
  activate-refused e h =
      ground (arith, found, live, h, consume-bindings now req.challenge_id req.binding_id w)

  activate-Outcome : Outcome env now req b w
  activate-Outcome = either (activate env now req w).0 refl
    where
      either :
          (r : Result Thrown (Unit {0})) → (activate env now req w).0 ≡ r → Outcome env now req b w
      either (ok done) h = inl (
        h,
        ap (first (named req.binding_id)) (activate-returned h)
            ∙ first-update (named req.binding_id) (activated now) w.bindings b found (λ s. refl),
      )
      either (err e) h = inr ((λ fine. err-ne-ok (sym h ∙ fine)), activate-refused e h)

-- In a request that no other one interrupts, a device whose activation challenge is live is activated
-- exactly when it awaits that and has signed the challenge's payload under its own P-256 key. Then its row is active from this time on; otherwise no
-- binding is changed. The status of the citizen is not asked for.
pub activate_iff :
    (env : Environment) (now : ℕ) (req : ActivateRequest) (b : Binding) (payload : String)
    (w : World)
    → first (named req.binding_id) w.bindings ≡ some b
    → (consume now req.challenge_id activation req.binding_id w).0 ≡ ok payload
    → (((activate env now req w).0 ≡ ok tt) ↔ IsProved env b payload req.signature)
      × Outcome env now req b w
activate_iff env now req b payload w found live = (
  activate-answers env now req b payload w found live,
  activate-Outcome env now req b payload w found live,
)
