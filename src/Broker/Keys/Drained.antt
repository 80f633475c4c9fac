-- ===== src/Broker/Keys/Drained.antt =====
-- keys.service.ts: what becomes of the lifecycle events that custody reported.
use sdidfy.Prelude.{
  ℕ, ◌+◌, ◌≡◌, inl, inr, refl, ap, Bool, List, [], ◌∷◌, ◌++◌, Result, ok, err, Bool-cases,
}
use sdidfy.Broker.Custody.{CustodyEvent}
use sdidfy.Broker.Keys.{KeyRow, lifecycle}
use sdidfy.Broker.Keys.Boundary.{Boundary, KeysError, audit_failed, drain, drain_lifecycle_events}

-- The rows of events, in the order of the events; the newest row comes first.
abbrev pub audited : List CustodyEvent → List KeyRow → List KeyRow
audited [] rows = rows
audited (e ∷ es) rows = audited es (lifecycle e ∷ rows)

-- How a drain of `pending` ended: it has audited the events before the first failed append, and
-- keeps the events after it. The one whose append failed is in neither.
pub data Drained (pending : List CustodyEvent) (rows : List KeyRow)
    : Result KeysError (Unit {0}) → List CustodyEvent → List KeyRow → Type 0 where
  all_audited :
      {after : List KeyRow} → after ≡ audited pending rows → Drained pending rows (ok tt) [] after
  one_lost :
      (done : List CustodyEvent) (lost : CustodyEvent) {left : List CustodyEvent}
      {after : List KeyRow}
      → pending ≡ done ++ (lost ∷ left)
      → after ≡ audited done rows
      → Drained pending rows (err audit_failed) left after

drain-Drained :
    (es : List CustodyEvent) (appends : ℕ → Bool) (n : ℕ) (s : Boundary)
    → Drained es s.service.rows
        (drain es appends n s).0
        (drain es appends n s).1.pending_events
        (drain es appends n s).1.service.rows
unfolding drain
drain-Drained [] appends n s = all_audited refl
drain-Drained (e ∷ es) appends n s = elim (Bool-cases (appends n)) [
  | inl fine ↦ rw fine (grown (drain-Drained es appends (n + 1) next))
  | inr failed ↦ rw failed (one_lost [] e refl refl)
]
  where
    next : Boundary
    next = record s { service = record s.service { rows = lifecycle e ∷ s.service.rows } }

    grown :
        {r : Result KeysError (Unit {0})} {left : List CustodyEvent} {after : List KeyRow}
        → Drained es (lifecycle e ∷ s.service.rows) r left after
        → Drained (e ∷ es) s.service.rows r left after
    grown (all_audited is) = all_audited is
    grown (one_lost done lost whole is) =
        one_lost (e ∷ done) lost (ap (λ (l : List CustodyEvent). e ∷ l) whole) is

pub drain_lifecycle_events-Drained :
    (appends : ℕ → Bool) (s : Boundary)
    → Drained s.pending_events s.service.rows
        (drain_lifecycle_events appends s).0
        (drain_lifecycle_events appends s).1.pending_events
        (drain_lifecycle_events appends s).1.service.rows
unfolding drain_lifecycle_events
drain_lifecycle_events-Drained appends s = drain-Drained s.pending_events appends 0 s
