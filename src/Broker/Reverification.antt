-- ===== src/Broker/Reverification.antt =====
-- apps/broker/src/trust/reverification.service.ts. SDID's answer for a subject is an argument.
pub mod Effects
use Prim.Native.String.{String}
use sdidfy.Prelude.{
  ℕ, zero, suc, ◌+◌, ◌*◌, Bool, true, false, not, ◌&&◌, ◌||◌, List, [], ◌∷◌, ◌++◌, Option, none,
  some, Result, ok, err, leb, if◌then◌else◌, same, some_of, length,
}
use sdidfy.Shared.Assurance.{AssuranceLevel}
use sdidfy.Shared.Errors.{ErrorCode, Thrown, bridge_error, other_error, access_denied}
use sdidfy.Broker.World.{
  World, Citizen, CitizenStatus, citizen_active, suspended, Binding, BindingStatus, active, revoked,
  awaiting_activation,
}
use sdidfy.Broker.Table.{first, rows, update}
use sdidfy.Broker.Handler.{
  Handler, ◌>>=◌, ◌>>◌, pure, throw, refuse_if, present, gets, modify, append, event, lift, attempt,
}
use sdidfy.Broker.Environment.{Environment}

pub record ReassertResult : Type 0 where
  pub valid : Bool
  pub assurance : AssuranceLevel
  pub txn_ref : String

abbrev pub Sdid : Type 0
Sdid = String → Result Thrown ReassertResult

abbrev pub or_else : Option ℕ → ℕ → ℕ
or_else none n = n
or_else (some m) n = m

unfoldable pub last_sdid_contact : Binding → ℕ
last_sdid_contact b = or_else b.last_reasserted_at (or_else b.activated_at b.enrolled_at)

unfoldable pub is_due : Environment → Binding → ℕ → Bool → Bool
unfolding last_sdid_contact
is_due env b now force = force || leb (last_sdid_contact b + env.reverify_interval * 1000) now

abbrev pub is_binding_active : BindingStatus → Bool
is_binding_active active = true
is_binding_active _ = false

abbrev pub is_citizen_active : CitizenStatus → Bool
is_citizen_active citizen_active = true
is_citizen_active suspended = false

-- `and(eq(deviceBindings.citizenId, citizenId), eq(deviceBindings.status, 'active'))`
abbrev pub active_of : String → Binding → Bool
active_of citizen_id b = same b.citizen_id citizen_id && is_binding_active b.status

abbrev pub suspend : Citizen → Citizen
suspend c = record c { status = suspended }

abbrev pub revoke_with : ℕ → String → Binding → Binding
revoke_with now reason b = record b {
  status = revoked;
  revoked_at = some now;
  revoke_reason = some reason;
  push_platform = none;
  push_token = none;
}

-- Some citizen with this id may be re-asserted: the subject to ask SDID about.
abbrev pub reassertable : Option Citizen → Option String
reassertable none = none
reassertable (some c) = if is_citizen_active c.status then c.sdid_subject else none

-- What is done with SDID's verdict.
abbrev pub act_on : String → String → String → ℕ → ReassertResult → Handler Bool
act_on citizen_id binding_id trigger now result =
    if result.valid
    then (do
      modify (λ w. record w {
        bindings =
            update (active_of citizen_id) (λ b. record b { last_reasserted_at = some now })
              w.bindings;
      })
      append (record (event "system" none "sdid.reassert" "success") {
        subject_ref = some citizen_id;
        device_binding_id = some binding_id;
        assurance = some result.assurance;
        sdid_txn_ref = some result.txn_ref;
        context = ("trigger", trigger ∷ []) ∷ [];
      })
      pure true)
    else (do
      modify (λ w. record w { citizens = update (λ c. same c.id citizen_id) suspend w.citizens })
      modify (λ w. record w {
        bindings =
            update (active_of citizen_id) (revoke_with now "sdid-reassert-invalid") w.bindings;
      })
      append (record (event "system" none "sdid.reassert" "failure") {
        subject_ref = some citizen_id;
        device_binding_id = some binding_id;
        sdid_txn_ref = some result.txn_ref;
        context =
            ("trigger", trigger ∷ [])
            ∷ ("reason", "identity-invalid" ∷ [])
            ∷ ("effect", "citizen-suspended-bindings-revoked" ∷ [])
            ∷ [];
      })
      throw access_denied 403)

-- True when SDID was contacted and holds the identity for valid.
unfoldable pub reassert_now : Sdid → String → String → String → ℕ → Handler Bool
reassert_now sdid citizen_id binding_id trigger now = do
  citizen ← gets (λ w. first (λ c. same c.id citizen_id) w.citizens)
  subject ← present (reassertable citizen) access_denied 403
  result ← lift (sdid subject)
  act_on citizen_id binding_id trigger now result

unfoldable pub reassert_if_due :
    Environment → Sdid → String → Binding → Bool → String → ℕ → Handler Bool
reassert_if_due env sdid citizen_id binding force trigger now =
    if is_due env binding now force
    then reassert_now sdid citizen_id binding.id trigger now
    else pure false

-- The map from a due citizen to the first of the bindings that made it due, in insertion order.
unfoldable pub due_citizens :
    Environment → ℕ → List (String × String) → List Binding → List (String × String)
due_citizens env now found [] = found
due_citizens env now found (b ∷ bs) =
    due_citizens env now
      (if is_due env b now false
          && not (some_of (λ (p : String × String). same p.0 b.citizen_id) found)
        then found ++ (b.citizen_id, b.id) ∷ []
        else found)
      bs

pub record SweepReport : Type 0 where
  pub scanned : ℕ
  pub due : ℕ
  pub reasserted : ℕ
  pub revocations : ℕ

abbrev pub tally : SweepReport → Result Thrown Bool → Handler SweepReport
tally report (ok true) = pure (record report { reasserted = report.reasserted + 1 })
tally report (ok false) = pure report
tally report (err (bridge_error access_denied http)) =
    pure (record report { revocations = report.revocations + 1 })
tally report (err e) = lift (err e)

-- At most `limit` citizens are processed.
unfoldable pub sweep_each :
    Sdid → ℕ → ℕ → List (String × String) → SweepReport → Handler SweepReport
sweep_each sdid now zero due report = pure report
sweep_each sdid now (suc limit) [] report = pure report
sweep_each sdid now (suc limit) ((citizen_id, binding_id) ∷ due) report = do
  outcome ← attempt (reassert_now sdid citizen_id binding_id "sweep" now)
  counted ← tally report outcome
  sweep_each sdid now limit due counted

unfoldable pub sweep : Environment → Sdid → ℕ → ℕ → Handler SweepReport
unfolding sweep_each due_citizens
sweep env sdid now limit = do
  found ← gets (λ w. rows (λ b. is_binding_active b.status) w.bindings)
  let due = due_citizens env now [] found
  sweep_each sdid now limit due
      (record { scanned = length found; due = length due; reasserted = 0; revocations = 0 })
