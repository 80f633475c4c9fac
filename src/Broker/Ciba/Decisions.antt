-- ===== src/Broker/Ciba/Decisions.antt =====
-- The citizen's decision of apps/broker/src/modules/ciba/ciba-device.controller.ts.
use Prim.Native.String.{String}
use sdidfy.Prelude.{
  ℕ, ◌<◌, ◌≡◌, refl, Bool, true, false, ◌&&◌, List, [], ◌∷◌, map, some, ok, arith, same, same_iff,
  if◌then◌else◌, Bool-cases, inl, inr,
}
use sdidfy.Shared.Assurance.{al_meets}
use sdidfy.Broker.World.{
  World, AuditEvent, Binding, active, Transaction, TransactionStatus, pending,
}
use sdidfy.Broker.Table.{first, any, update}
use sdidfy.Broker.Handler.{◌>>=◌}
use sdidfy.Broker.Environment.{Environment}
use sdidfy.Broker.Reverification.{Sdid}
use sdidfy.Broker.Devices.{named}
use sdidfy.Broker.Session.{DeviceSession}
use sdidfy.Broker.Ciba.{
  decide, DecisionRequest, settle_decision, is_pending, is_approval, status_of, resolve,
}

abbrev pub action_of : AuditEvent → String
action_of e = e.action

-- A decision is accepted only on a pending request that has not expired and is the citizen's own,
-- from an active binding that meets the assurance asked for.
pub decide-genuine :
    (env : Environment) (sdid : Sdid) (now : ℕ) (session : DeviceSession) (body : DecisionRequest)
    (txn : Transaction) (b : Binding) (s : TransactionStatus) (w : World)
    → first (λ t. same t.auth_req_id body.auth_req_id) w.transactions ≡ some txn
    → first (named session.binding_id) w.bindings ≡ some b
    → (decide env sdid now session body w).0 ≡ ok s
    → (txn.status ≡ pending)
      × (now < txn.expires_at)
      × (txn.citizen_id ≡ session.citizen_id)
      × (body.binding_id ≡ session.binding_id)
      × (b.status ≡ active)
      × (al_meets b.assurance_level txn.requested_al ≡ true)
unfolding decide ◌>>=◌
decide-genuine env sdid now session body txn b s w found held e = ground (
  arith,
  found,
  held,
  e,
  same_iff txn.citizen_id session.citizen_id,
  same_iff body.binding_id session.binding_id,
)

nothing_to_update :
    (p : Transaction → Bool) (f : Transaction → Transaction) (ts : List Transaction)
    → any p ts ≡ false
    → update p f ts ≡ ts
nothing_to_update p f [] e = refl
nothing_to_update p f (t ∷ ts) e = elim (Bool-cases (p t)) [
  | inl hit ↦ absurd (ground (arith, hit, e))
  | inr miss ↦ rw (miss, nothing_to_update p f ts (ground (arith, miss, e))) refl
]

-- A decision on a request that stopped being pending after it was read changes no transaction, and
-- is yet answered and audited as if it had been taken.
pub settle_decision-late :
    (now : ℕ) (txn : Transaction) (b : Binding) (body : DecisionRequest) (w : World)
    → any (λ t. same t.id txn.id && is_pending t.status) w.transactions ≡ false
    → ((settle_decision now txn b body w).0 ≡ ok (status_of body.decision))
      × ((settle_decision now txn b body w).1.transactions ≡ w.transactions)
      × (map action_of (settle_decision now txn b body w).1.audit
          ≡ (if is_approval body.decision then "ciba.request_approved" else "ciba.request_denied")
            ∷ map action_of w.audit)
unfolding settle_decision ◌>>=◌
settle_decision-late now txn b body w late = (
  refl,
  nothing_to_update (λ t. same t.id txn.id && is_pending t.status) (resolve now b.id body)
      w.transactions late,
  refl,
)
