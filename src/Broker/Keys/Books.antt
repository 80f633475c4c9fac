-- ===== src/Broker/Keys/Books.antt =====
-- keys.service.ts: the service over time, with a record of what was counted, which it does not keep
-- itself.
use Prim.Native.String.{String}
use sdidfy.Prelude.{ℕ, ◌≡◌, Bool, ◌&&◌, Option, none, some, List, [], ◌∷◌, same, if◌then◌else◌}
use sdidfy.Prelude.Int.{ℤ, pos, ◌+ℤ◌}
use sdidfy.Broker.Keys.{
  KeysService, KeyRow, usage_summary, signing_failed, custody_health_changed, lifecycle,
  key_rotated, SigningPurpose, field_for, signed, record_signing_failure, is_throttled, begin_flush,
  end_flush, fail_flush, note_health, TallyField, failures, suppressed_failure_rows, same_field,
  UsageTally, Usage, usage_of, or_none,
}
use sdidfy.Broker.Keys.Tallies.{IsMap}

-- The service, and what was counted since the process began.
pub record Books : Type 0 where
  pub service : KeysService
  pub counted : List (String × TallyField)

abbrev pub new_service : KeysService
new_service = record {
  usage = [];
  in_flight = none;
  last_failure_audit_at = [];
  last_healthy = none;
  rows = [];
}

abbrev pub closed_books : Books
closed_books = record { service = new_service; counted = [] }

abbrev pub count_failure : Bool → String → List (String × TallyField) → List (String × TallyField)
count_failure throttled kid es =
    if throttled
    then (kid, suppressed_failure_rows) ∷ (kid, failures) ∷ es
    else (kid, failures) ∷ es

-- A flush begins where none is in flight; its append succeeds or fails.
pub data BooksStep (b : Books) : Books → Type 0 where
  signs :
      (kid : String) (purpose : SigningPurpose)
      → BooksStep b (record {
        service = signed kid purpose b.service;
        counted = (kid, field_for purpose) ∷ b.counted;
      })
  cannot_sign :
      (kid : String) (now : ℕ) (appended : Bool)
      → BooksStep b (record {
        service = record_signing_failure kid now appended b.service;
        counted = count_failure (is_throttled kid now b.service) kid b.counted;
      })
  begins : b.service.in_flight ≡ none → BooksStep b (record b { service = begin_flush b.service })
  reports :
      (keys : Usage)
      → b.service.in_flight ≡ some keys
      → BooksStep b (record b { service = end_flush keys b.service })
  gives_up : BooksStep b (record b { service = fail_flush b.service })
  probes :
      (healthy appended : Bool)
      → BooksStep b (record b { service = note_health healthy appended b.service })

pub data BooksReach : Books → Type 0 where
  opened : BooksReach closed_books
  next : {b c : Books} → BooksReach b → BooksStep b c → BooksReach c

abbrev pub is_entry : String → TallyField → String × TallyField → Bool
is_entry kid f (k, g) = same k kid && same_field f g

abbrev pub count : String → TallyField → List (String × TallyField) → ℤ
count kid f [] = pos 0
count kid f (e ∷ es) = if is_entry kid f e then count kid f es +ℤ pos 1 else count kid f es

abbrev pub amount : TallyField → Option UsageTally → ℤ
amount f o = or_none o f

abbrev pub in_row : String → TallyField → KeyRow → ℤ
in_row kid f (usage_summary keys) = amount f (usage_of kid keys)
in_row kid f (signing_failed k at) = pos 0
in_row kid f (custody_health_changed healthy) = pos 0
in_row kid f (lifecycle e) = pos 0
in_row kid f (key_rotated result) = pos 0

abbrev pub reported : String → TallyField → List KeyRow → ℤ
reported kid f [] = pos 0
reported kid f (row ∷ rows) = reported kid f rows +ℤ in_row kid f row

pub record IsBalanced (u : Usage) (flight : Option Usage) (rows : List KeyRow)
    (counted : List (String × TallyField)) : Type 0 where
  pub is_map : IsMap u
  pub flight_map : (keys : Usage) → flight ≡ some keys → IsMap keys
  pub covered :
      (keys : Usage) (kid : String)
      → flight ≡ some keys
      → usage_of kid u ≡ none
      → usage_of kid keys ≡ none
  pub balance :
      (kid : String) (f : TallyField)
      → count kid f counted ≡ reported kid f rows +ℤ amount f (usage_of kid u)

abbrev pub Balanced : Books → Type 0
Balanced b = IsBalanced b.service.usage b.service.in_flight b.service.rows b.counted
