-- ===== src/Broker/Enrolment/Cap.antt =====
-- The cap on devices of apps/broker/src/modules/enrolment/enrolment.service.ts.
use Prim.Native.String.{String}
use sdidfy.Prelude.{ℕ, suc, ◌≤◌, ◌≡◌, ok}
use sdidfy.Shared.Assurance.{AssuranceLevel}
use sdidfy.Broker.World.{World}
use sdidfy.Broker.Table.{count}
use sdidfy.Broker.Enrolment.{check_cap, add_binding, counts_for, max_active_bindings, StartRequest}

abbrev pub held_by : String → World → ℕ
held_by who w = count (counts_for who) w.bindings

-- Runs in which at most `most` enrolments of the citizen are at one time between the SELECT that
-- let them through and their INSERT. `waiting` of them are; any other request may run at any point, and
-- leaves the citizen no more bindings than there were.
pub data Enrolling (who : String) (most : ℕ) : World → (waiting : ℕ) → Type 0 where
  begun : {w : World} → held_by who w ≤ max_active_bindings → Enrolling who most w 0
  let_through :
      {w : World} {waiting : ℕ}
      → Enrolling who most w waiting
      → suc waiting ≤ most
      → (check_cap who w).0 ≡ ok tt
      → Enrolling who most (check_cap who w).1 (suc waiting)
  added :
      {w : World} {waiting : ℕ} (now : ℕ) (binding_id : String) (req : StartRequest)
      (level : AssuranceLevel) (txn_ref : String)
      → Enrolling who most w (suc waiting)
      → Enrolling who most (add_binding now binding_id who req level txn_ref w).1 waiting
  given_up :
      {w : World} {waiting : ℕ} → Enrolling who most w (suc waiting) → Enrolling who most w waiting
  others :
      {w : World} {waiting : ℕ} (after : World)
      → Enrolling who most w waiting
      → held_by who after ≤ held_by who w
      → Enrolling who most after waiting
