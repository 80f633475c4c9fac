-- ===== src/Broker/Keys/Conservation.antt =====
-- keys.service.ts: the sum of the reports and the tallies over a run of the service.
use Prim.Native.String.{String}
use mathlib.Core.Path.{subst}
use sdidfy.Prelude.{
  none≢some, ℕ, ◌≡◌, refl, sym, Bool, Option, none, List, [], ◌∷◌, same, Bool-cases, inl, inr,
}
use sdidfy.Prelude.Int.{pos}
use sdidfy.Broker.Keys.{
  with_snapshot, same_health, is_first_success, KeysService, signing_failed, custody_health_changed,
  field_for, signed, record_signing_failure, is_throttled, begin_flush, end_flush, fail_flush,
  note_health, TallyField, failures, suppressed_failure_rows, Usage, usage_of, tally,
}
use sdidfy.Broker.Keys.Books.{
  Books, closed_books, count_failure, BooksStep, signs, cannot_sign, begins, reports, gives_up,
  probes, BooksReach, opened, next, IsBalanced, Balanced,
}
use sdidfy.Broker.Keys.Balance.{
  tally-IsBalanced, row-IsBalanced, begin-IsBalanced, empty-IsBalanced, report-IsBalanced, nothing,
}

cannot_sign-Balanced :
    (kid : String) (now : ℕ) (appended : Bool) (b : Books)
    → Balanced b
    → Balanced (record {
      service = record_signing_failure kid now appended b.service;
      counted = count_failure (is_throttled kid now b.service) kid b.counted;
    })
unfolding record_signing_failure
cannot_sign-Balanced kid now appended b h =
    let s = b.service in
    let one = tally-IsBalanced kid failures s.usage s.in_flight s.rows b.counted h in
    elim (Bool-cases (is_throttled kid now s)) [
      | inl throttled ↦ rw throttled (
          tally-IsBalanced kid suppressed_failure_rows (tally kid failures s.usage) s.in_flight
            s.rows ((kid, failures) ∷ b.counted) one)
      | inr free ↦ rw free (
          row-IsBalanced (signing_failed kid now) appended (tally kid failures s.usage) s.in_flight
            s.rows ((kid, failures) ∷ b.counted) (λ k f. refl) one)
    ]

with_snapshot-IsBalanced :
    (u : Usage) (s : KeysService) (counted : List (String × TallyField))
    → s.in_flight ≡ none
    → IsBalanced u s.in_flight s.rows counted
    → IsBalanced u (with_snapshot u s).in_flight s.rows counted
with_snapshot-IsBalanced [] s counted idle h = h
with_snapshot-IsBalanced (k ∷ keys) s counted idle h =
    begin-IsBalanced (k ∷ keys) s.rows counted
      (subst (λ (o : Option Usage). IsBalanced (k ∷ keys) o s.rows counted) idle h)

snapshot_usage : (u : Usage) (s : KeysService) → (with_snapshot u s).usage ≡ s.usage
snapshot_usage [] s = refl
snapshot_usage (k ∷ keys) s = refl

snapshot_rows : (u : Usage) (s : KeysService) → (with_snapshot u s).rows ≡ s.rows
snapshot_rows [] s = refl
snapshot_rows (k ∷ keys) s = refl

begin_flush-Balanced :
    (b : Books)
    → b.service.in_flight ≡ none
    → Balanced b
    → Balanced (record b { service = begin_flush b.service })
unfolding begin_flush
begin_flush-Balanced b idle h =
    let s = b.service in
    rw (snapshot_usage s.usage s, snapshot_rows s.usage s)
      (with_snapshot-IsBalanced s.usage s b.counted idle h)

note_health-Balanced :
    (healthy appended : Bool) (b : Books)
    → Balanced b
    → Balanced (record b { service = note_health healthy appended b.service })
unfolding note_health
note_health-Balanced healthy appended b h =
    let s = b.service in
    elim (Bool-cases (same_health s.last_healthy healthy)) [
      | inl same ↦ rw same h
      | inr changed ↦ elim (Bool-cases (is_first_success s.last_healthy healthy)) [
        | inl first ↦ rw (changed, first) h
        | inr later ↦
            rw (changed, later)
              (row-IsBalanced (custody_health_changed healthy) appended s.usage s.in_flight s.rows
                b.counted (λ k f. refl) h)
      ]
    ]

step-Balanced : (b c : Books) → BooksStep b c → Balanced b → Balanced c
unfolding signed end_flush fail_flush
step-Balanced b c (signs kid purpose) h =
    tally-IsBalanced kid (field_for purpose) b.service.usage b.service.in_flight b.service.rows
      b.counted h
step-Balanced b c (cannot_sign kid now appended) h = cannot_sign-Balanced kid now appended b h
step-Balanced b c (begins idle) h = begin_flush-Balanced b idle h
step-Balanced b c (reports keys flight) h =
    report-IsBalanced keys b.service.usage b.service.rows b.counted
      (subst (λ (o : Option Usage). IsBalanced b.service.usage o b.service.rows b.counted) flight h)
step-Balanced b c gives_up h =
    empty-IsBalanced b.service.usage b.service.in_flight b.service.rows b.counted h
step-Balanced b c (probes healthy appended) h = note_health-Balanced healthy appended b h

closed-Balanced : Balanced closed_books
closed-Balanced = record {
  is_map = tt;
  flight_map = λ keys e. absurd (none≢some e);
  covered = λ keys kid e gone. absurd (none≢some e);
  balance = λ kid f. sym (unfold usage_of in nothing (pos 0));
}

-- However signatures, failures, probes and flushes alternate, while no flush begins before the
-- last one has ended: for every key and every member of its tally, what was counted since the start is
-- what the summaries in the audit trail report plus what the map still holds; and no key stands twice
-- in the map.
pub BooksReach-Balanced : (b : Books) → BooksReach b → Balanced b
BooksReach-Balanced b opened = closed-Balanced
BooksReach-Balanced c (next {b} reach step) = step-Balanced b c step (BooksReach-Balanced b reach)
