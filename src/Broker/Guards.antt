-- ===== src/Broker/Guards.antt =====
-- Revocation in apps/broker is immediate: what a revoked device is refused.
use Prim.Native.String.{String}
use mathlib.Core.Path.{subst}
use sdidfy.Prelude.{
  ℕ, ◌≤◌, ◌≡◌, refl, sym, ◌∙◌, Bool, true, false, not, ◌&&◌, ◌||◌, Option, none, some, Result, ok,
  err, arith, leb, same, Bool-cases, Option-cases, inl, inr, err-ne-ok,
}
use sdidfy.Shared.Errors.{Thrown, bridge_error, binding_not_found}
use sdidfy.Broker.World.{World, Binding, Transaction}
use sdidfy.Broker.Table.{first, any, count, any-update_off, first-any, first-alone}
use sdidfy.Broker.Handler.{◌>>=◌}
use sdidfy.Broker.Environment.{Environment}
use sdidfy.Broker.Reverification.{Sdid, is_binding_active, revoke_with}
use sdidfy.Broker.Devices.{
  named, log_in, LoginRequest, issue_login_challenge, revoke_binding, is_binding_revoked,
  reason_or_default,
}
use sdidfy.Broker.Session.{DeviceSession, can_activate}
use sdidfy.Broker.Ciba.{decide, DecisionRequest, is_pending}

-- No active row stands under this binding id.
abbrev pub IsShut : String → World → Type 0
IsShut id w = any (λ b. named id b && is_binding_active b.status) w.bindings ≡ false

abbrev pub IsRefused : {A : Type 0} → Result Thrown A → Type 0
IsRefused (ok a) = ⊥
IsRefused (err e) = Unit {0}

inactive :
    (id : String) (w : World) (b : Binding)
    → IsShut id w
    → first (named id) w.bindings ≡ some b
    → is_binding_active b.status ≡ false
inactive id w b shut found =
    first-any (named id) (λ c. is_binding_active c.status) w.bindings b found shut

module _ (w : World) where
  log_in-IsRefused :
      (env : Environment) (sdid : Sdid) (now : ℕ) (req : LoginRequest)
      → IsShut req.binding_id w
      → IsRefused (log_in env sdid now req w).0
  unfolding log_in ◌>>=◌
  log_in-IsRefused env sdid now req shut =
      elim (Option-cases (first (named req.binding_id) w.bindings)) [
        | inl gone ↦ rw gone tt
        | inr (b, found) ↦ rw (found, inactive req.binding_id w b shut found) tt
      ]

  issue_login_challenge-IsRefused :
      (env : Environment) (now : ℕ) (challenge_id nonce binding_id : String)
      → IsShut binding_id w
      → IsRefused (issue_login_challenge env now challenge_id nonce binding_id w).0
  unfolding issue_login_challenge ◌>>=◌
  issue_login_challenge-IsRefused env now challenge_id nonce binding_id shut =
      elim (Option-cases (first (named binding_id) w.bindings)) [
        | inl gone ↦ rw gone tt
        | inr (b, found) ↦ rw (found, inactive binding_id w b shut found) tt
      ]

  can_activate-IsRefused :
      (sub : Option String) (binding_id : String)
      → IsShut binding_id w
      → IsRefused (can_activate (some (record { sub = sub; binding_id = some binding_id })) w).0
  unfolding can_activate ◌>>=◌
  can_activate-IsRefused none binding_id shut = tt
  can_activate-IsRefused (some sub) binding_id shut =
      elim (Option-cases (first (named binding_id) w.bindings)) [
        | inl gone ↦ rw gone tt
        | inr (b, found) ↦ rw (found, inactive binding_id w b shut found) tt
      ]

  decide-IsRefused :
      (env : Environment) (sdid : Sdid) (now : ℕ) (session : DeviceSession) (body : DecisionRequest)
      → IsShut session.binding_id w
      → IsRefused (decide env sdid now session body w).0
  unfolding decide ◌>>=◌
  decide-IsRefused env sdid now session body shut =
      elim (Option-cases (first (λ t. same t.auth_req_id body.auth_req_id) w.transactions)) [
        | inl gone ↦ rw gone tt
        | inr (txn, found) ↦ elim (Bool-cases (bars txn)) [
          | inl barred ↦ rw (found, barred) tt
          | inr passes ↦ elim (Option-cases (first (named session.binding_id) w.bindings)) [
            | inl lost ↦ rw (found, passes, lost) tt
            | inr (b, held) ↦ rw (found, passes, held, inactive session.binding_id w b shut held) tt
          ]
        ]
      ]
    where
      bars : Transaction → Bool
      bars txn =
          not (is_pending txn.status)
          || leb txn.expires_at now
          || not (same txn.citizen_id session.citizen_id)
          || not (same body.binding_id session.binding_id)

  -- Revoking a binding, also one that was revoked before, leaves no active row under its id; ids are
  -- the primary key.
  revoke_binding-IsShut :
      (now : ℕ) (citizen_id binding_id : String) (reason : Option String)
      → count (named binding_id) w.bindings ≤ 1
      → (revoke_binding now citizen_id binding_id reason w).0 ≡ ok tt
      → IsShut binding_id (revoke_binding now citizen_id binding_id reason w).1
  unfolding revoke_binding ◌>>=◌
  revoke_binding-IsShut now citizen_id binding_id reason u e =
      elim (Option-cases (first (named binding_id) w.bindings)) [
        | inl gone ↦ absurd (none_found gone e)
        | inr (b, found) ↦ elim (Bool-cases (not (same b.citizen_id citizen_id))) [
          | inl foreign ↦ absurd (not_own b found foreign e)
          | inr own ↦ elim (Bool-cases (is_binding_revoked b.status)) [
            | inl already ↦
                rw (found, own, already)
                  (first-alone (named binding_id) (λ c. is_binding_active c.status) w.bindings b u
                    found (ground (arith, already)))
            | inr fresh ↦
                rw (found, own, fresh)
                  (any-update_off (named binding_id) (λ c. is_binding_active c.status)
                    (revoke_with now (reason_or_default reason)) w.bindings (λ r. refl))
          ]
        ]
      ]
    where
      impossible :
          {r : Result Thrown (Unit {0})}
          → r ≡ err (bridge_error binding_not_found 404)
          → r ≡ ok tt
          → ⊥
      impossible p q = err-ne-ok (sym p ∙ q)

      none_found :
          first (named binding_id) w.bindings ≡ none
          → ¬ ((revoke_binding now citizen_id binding_id reason w).0 ≡ ok tt)
      none_found gone e = unfold revoke_binding ◌>>=◌ in impossible (rw gone refl) e

      not_own :
          (b : Binding)
          → first (named binding_id) w.bindings ≡ some b
          → not (same b.citizen_id citizen_id) ≡ true
          → ¬ ((revoke_binding now citizen_id binding_id reason w).0 ≡ ok tt)
      not_own b found foreign e =
          unfold revoke_binding ◌>>=◌ in impossible (rw (found, foreign) refl) e

-- Once a binding is revoked, its device is refused at once: it gets no login challenge, cannot log
-- in, and neither a session that it still holds nor a decision is accepted.
pub revoke_binding-immediate :
    (env : Environment) (sdid : Sdid) (t now : ℕ) (citizen_id binding_id : String)
    (reason : Option String) (w : World) (req : LoginRequest) (challenge_id nonce : String)
    (sub : Option String) (session : DeviceSession) (body : DecisionRequest)
    → count (named binding_id) w.bindings ≤ 1
    → (revoke_binding t citizen_id binding_id reason w).0 ≡ ok tt
    → req.binding_id ≡ binding_id
    → session.binding_id ≡ binding_id
    → IsRefused
        (issue_login_challenge env now challenge_id nonce binding_id
          (revoke_binding t citizen_id binding_id reason w).1).0
      × IsRefused (log_in env sdid now req (revoke_binding t citizen_id binding_id reason w).1).0
      × IsRefused
          (can_activate
            (some (record { sub = sub; binding_id = some binding_id }))
            (revoke_binding t citizen_id binding_id reason w).1).0
      × IsRefused
          (decide env sdid now session body (revoke_binding t citizen_id binding_id reason w).1).0
revoke_binding-immediate env sdid t now citizen_id binding_id reason w req challenge_id nonce sub
      session body unique e mine its =
    let v = (revoke_binding t citizen_id binding_id reason w).1 in
    let shut = revoke_binding-IsShut w t citizen_id binding_id reason unique e in
    (
      issue_login_challenge-IsRefused v env now challenge_id nonce binding_id shut,
      log_in-IsRefused v env sdid now req (subst (λ (x : String). IsShut x v) (sym mine) shut),
      can_activate-IsRefused v sub binding_id shut,
      decide-IsRefused v env sdid now session body
          (subst (λ (x : String). IsShut x v) (sym its) shut),
    )
