-- ===== src/Broker/Keys.antt =====
-- apps/broker/src/keys/keys.service.ts: the tallies of signatures, the summaries of them in the audit
-- trail, the throttle on failures and the changes of health. A flush is in two parts, as it waits for
-- the audit trail. Boundary has the operations that call custody.
pub mod Tallies
pub mod Boundary
pub mod Ready
pub mod Rotation
pub mod Signs
pub mod Drained
pub mod Books
pub mod Balance
pub mod Conservation
use Prim.Native.String.{String}
use sdidfy.Prelude.{
  ℕ, ◌+◌, ◌*◌, Bool, true, false, not, ◌&&◌, Option, none, some, List, [], ◌∷◌, ltb, ◌==◌, same,
  if◌then◌else◌,
}
use sdidfy.Broker.Custody.{CustodyEvent, Rotated}
use sdidfy.Prelude.Int.{ℤ, pos, negsuc, ◌+ℤ◌, ◌-ℤ◌}

pub data TallyField : Type 0 where
  signatures probe_signatures failures suppressed_failure_rows : TallyField

abbrev pub same_field : TallyField → TallyField → Bool
same_field signatures signatures = true
same_field probe_signatures probe_signatures = true
same_field failures failures = true
same_field suppressed_failure_rows suppressed_failure_rows = true
same_field _ _ = false

-- The members of a tally that are numbers.
abbrev pub UsageTally : Type 0
UsageTally = TallyField → ℤ

abbrev pub no_usage : UsageTally
no_usage f = pos 0

-- `new Map<string, UsageTally>()`
abbrev pub Usage : Type 0
Usage = List (String × UsageTally)

unfoldable pub usage_of : String → Usage → Option UsageTally
usage_of kid [] = none
usage_of kid ((k, t) ∷ u) = if same k kid then some t else usage_of kid u

unfoldable pub set_usage : String → UsageTally → Usage → Usage
set_usage kid t [] = (kid, t) ∷ []
set_usage kid t ((k, old) ∷ u) =
    let rest = set_usage kid t u in if same k kid then (k, t) ∷ u else (k, old) ∷ rest

unfoldable pub delete_usage : String → Usage → Usage
delete_usage kid [] = []
delete_usage kid ((k, t) ∷ u) =
    let rest = delete_usage kid u in if same k kid then rest else (k, t) ∷ rest

abbrev pub or_none : Option UsageTally → UsageTally
or_none none = no_usage
or_none (some t) = t

abbrev pub increment : TallyField → UsageTally → UsageTally
increment field t f = if same_field f field then t f +ℤ pos 1 else t f

unfoldable pub tally : String → TallyField → Usage → Usage
unfolding usage_of set_usage
tally kid field u = set_usage kid (increment field (or_none (usage_of kid u))) u

abbrev pub is_zero : ℤ → Bool
is_zero (pos n) = n == 0
is_zero (negsuc n) = false

abbrev pub is_spent : UsageTally → Bool
is_spent t =
    is_zero (t signatures)
    && is_zero (t probe_signatures)
    && is_zero (t failures)
    && is_zero (t suppressed_failure_rows)

abbrev pub minus : UsageTally → UsageTally → UsageTally
minus t reported f = t f -ℤ reported f

-- One round of the loop that follows the append.
abbrev pub take_off : String → UsageTally → Option UsageTally → Usage → Usage
take_off kid reported none u = u
take_off kid reported (some t) u =
    if is_spent (minus t reported) then delete_usage kid u else set_usage kid (minus t reported) u

unfoldable pub subtract : Usage → Usage → Usage
unfolding usage_of set_usage delete_usage
subtract [] u = u
subtract ((kid, reported) ∷ keys) u = subtract keys (take_off kid reported (usage_of kid u) u)

pub data SigningPurpose : Type 0 where
  for_token for_probe : SigningPurpose

-- The rows that are appended.
pub data KeyRow : Type 0 where
  usage_summary : Usage → KeyRow
  signing_failed : String → ℕ → KeyRow
  custody_health_changed : Bool → KeyRow
  lifecycle : CustodyEvent → KeyRow
  key_rotated : Rotated → KeyRow

pub record KeysService : Type 0 where
  pub usage : Usage
  pub in_flight : Option Usage
  pub last_failure_audit_at : List (String × ℕ)
  pub last_healthy : Option Bool
  pub rows : List KeyRow

abbrev pub field_for : SigningPurpose → TallyField
field_for for_token = signatures
field_for for_probe = probe_signatures

-- `lastFailureAuditAt.get(kid) ?? 0`, and `set`.
unfoldable pub last_failure : String → List (String × ℕ) → ℕ
last_failure kid [] = 0
last_failure kid ((k, t) ∷ ts) = if same k kid then t else last_failure kid ts

unfoldable pub set_failure : String → ℕ → List (String × ℕ) → List (String × ℕ)
set_failure kid now [] = (kid, now) ∷ []
set_failure kid now ((k, t) ∷ ts) =
    let rest = set_failure kid now ts in if same k kid then (k, now) ∷ ts else (k, t) ∷ rest

abbrev pub signing_failure_audit_interval_ms : ℕ
signing_failure_audit_interval_ms = 60000

-- A failed append of these rows is caught and logged.
abbrev pub append_or_log : Bool → KeyRow → List KeyRow → List KeyRow
append_or_log appended row rows = if appended then row ∷ rows else rows

abbrev pub is_throttled : String → ℕ → KeysService → Bool
is_throttled kid now s =
    ltb now (last_failure kid s.last_failure_audit_at + signing_failure_audit_interval_ms)

unfoldable pub record_signing_failure : String → ℕ → Bool → KeysService → KeysService
unfolding tally last_failure set_failure
record_signing_failure kid now appended s =
    if is_throttled kid now s
    then record s { usage = tally kid suppressed_failure_rows (tally kid failures s.usage) }
    else record s {
      usage = tally kid failures s.usage;
      last_failure_audit_at = set_failure kid now s.last_failure_audit_at;
      rows = append_or_log appended (signing_failed kid now) s.rows;
    }

-- The end of `signCompactJws`, once custody has answered.
unfoldable pub signed : String → SigningPurpose → KeysService → KeysService
unfolding tally
signed kid purpose s = record s { usage = tally kid (field_for purpose) s.usage }

-- `flushUsageSummary`, up to the append, after it, and where it throws.
abbrev pub with_snapshot : Usage → KeysService → KeysService
with_snapshot [] s = s
with_snapshot (k ∷ keys) s = record s { in_flight = some (k ∷ keys) }

unfoldable pub begin_flush : KeysService → KeysService
begin_flush s = with_snapshot s.usage s

unfoldable pub end_flush : Usage → KeysService → KeysService
unfolding subtract
end_flush keys s = record s {
  in_flight = none;
  rows = usage_summary keys ∷ s.rows;
  usage = subtract keys s.usage;
}

unfoldable pub fail_flush : KeysService → KeysService
fail_flush s = record s { in_flight = none }

abbrev pub same_health : Option Bool → Bool → Bool
same_health none healthy = false
same_health (some true) healthy = healthy
same_health (some false) healthy = not healthy

abbrev pub is_first_success : Option Bool → Bool → Bool
is_first_success none healthy = healthy
is_first_success (some b) healthy = false

unfoldable pub note_health : Bool → Bool → KeysService → KeysService
note_health healthy appended s =
    if same_health s.last_healthy healthy
    then s
    else if is_first_success s.last_healthy healthy
    then record s { last_healthy = some healthy }
    else record s {
      last_healthy = some healthy;
      rows = append_or_log appended (custody_health_changed healthy) s.rows;
    }
