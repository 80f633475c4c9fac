-- ===== src/Broker/Anomaly.antt =====
-- apps/broker/src/anomaly/anomaly.service.ts. Its keys in Redis all begin with `anom:`, so they are a
-- state of their own here. Metrics and log lines are left out, and Redis and the audit trail answer.
pub mod Quiet
use Prim.Native.String.{String, ◌++◌}
use sdidfy.Prelude.{
  ℕ, suc, ◌+◌, ◌*◌, Bool, true, false, not, List, [], ◌∷◌, Option, none, some, ltb, leb, ◌==◌, same,
  includes, length, if◌then◌else◌, after_prefix,
}
use sdidfy.Broker.Store.{Store, Kept, entry, get, set, expire}
use sdidfy.Broker.World.{AuditEvent}

pub data AnomalyPattern : Type 0 where
  ciba_initiation_flood suspicious_denial_spike signature_failure_burst : AnomalyPattern
  enrolment_probing attestation_rejection_burst : AnomalyPattern

abbrev pub pattern_name : AnomalyPattern → String
pattern_name ciba_initiation_flood = "ciba_initiation_flood"
pattern_name suspicious_denial_spike = "suspicious_denial_spike"
pattern_name signature_failure_burst = "signature_failure_burst"
pattern_name enrolment_probing = "enrolment_probing"
pattern_name attestation_rejection_burst = "attestation_rejection_burst"

pub record AnomalyDetection : Type 0 where
  pub pattern : AnomalyPattern
  pub source_handle : String
  pub observed : ℕ
  pub threshold : ℕ
  pub window_seconds : ℕ

pub record Limit : Type 0 where
  pub threshold : ℕ
  pub window_seconds : ℕ

pub record AnomalyConfig : Type 0 where
  pub enabled : Bool
  -- The first half of the HMAC of the source under the pepper.
  pub source_handle : String → String
  pub ciba_initiation : Limit
  pub suspicious_denial : Limit
  pub signature_failure : Limit
  pub enrol_probe : Limit
  pub attestation_rejection : Limit

-- The rows are those that were appended to the audit trail, the newest first.
pub record AnomalyState : Type 0 where
  pub counters : Store ℕ
  pub nids : Store (List String)
  pub alerted : Store String
  pub detections : List AnomalyDetection

abbrev pub suppression_key : AnomalyDetection → String
suppression_key d = "anom:alerted:" ++ (pattern_name d.pattern ++ (":" ++ d.source_handle))

-- What follows the answer of SET with NX.
abbrev pub record_first : Option String → ℕ → AnomalyDetection → AnomalyState → AnomalyState
record_first (some old) now d s = s
record_first none now d s = record s {
  alerted = set (suppression_key d) "1" (some (now + d.window_seconds * 1000)) s.alerted;
  detections = d ∷ s.detections;
}

unfoldable pub raise : ℕ → AnomalyDetection → AnomalyState → AnomalyState
raise now d s = record_first (get now (suppression_key d) s.alerted) now d s

abbrev pub counted : Option (Kept ℕ) → ℕ
counted none = 1
counted (some e) = suc e.value

abbrev pub expiry_of : Option (Kept ℕ) → ℕ → Option ℕ
expiry_of none at = some at
expiry_of (some e) at = if e.value == 0 then some at else e.dies_at

-- INCR, and EXPIRE on the first.
abbrev pub incr_within : ℕ → String → ℕ → AnomalyState → AnomalyState
incr_within now key window_seconds s =
    let e = entry now key s.counters in
    record s {
      counters = set key (counted e) (expiry_of e (now + window_seconds * 1000)) s.counters;
    }

abbrev pub handle_of_scope : String → Option String → String
handle_of_scope scope none = scope
handle_of_scope scope (some handle) = handle

abbrev pub crossed : AnomalyPattern → String → Limit → ℕ → AnomalyDetection
crossed pattern handle limit observed = record {
  pattern = pattern;
  source_handle = handle;
  observed = observed;
  threshold = limit.threshold;
  window_seconds = limit.window_seconds;
}

unfoldable pub count : ℕ → AnomalyPattern → String → Limit → AnomalyState → AnomalyState
unfolding raise after_prefix
count now pattern scope_key limit s =
    let key = "anom:" ++ (pattern_name pattern ++ (":" ++ scope_key)) in
    let observed = counted (entry now key s.counters) in
    let after = incr_within now key limit.window_seconds s in
    if ltb observed limit.threshold
    then after
    else raise now
        (crossed pattern (handle_of_scope scope_key (after_prefix "src:" scope_key)) limit observed)
        after

-- `event.context?.[field] === value`
abbrev pub is_context : String → String → List (String × List String) → Bool
is_context field value [] = false
is_context field value ((f, vs) ∷ fs) =
    let rest = is_context field value fs in if same f field then includes vs value else rest

-- A member that is absent or empty is not counted.
abbrev pub count_for :
    ℕ → AnomalyPattern → String → Option String → Limit → AnomalyState → AnomalyState
count_for now pattern kind none limit s = s
count_for now pattern kind (some id) limit s =
    if same id "" then s else count now pattern (kind ++ id) limit s

abbrev pub count_if :
    Bool → ℕ → AnomalyPattern → String → Option String → Limit → AnomalyState → AnomalyState
count_if false now pattern kind id limit s = s
count_if true now pattern kind id limit s = count_for now pattern kind id limit s

unfoldable pub on_audit_event : AnomalyConfig → ℕ → AuditEvent → AnomalyState → AnomalyState
unfolding count
on_audit_event config now event s =
    if not config.enabled
    then s
    else if same event.action "ciba.request_created"
    then count_for now ciba_initiation_flood "rp:" event.rp_id config.ciba_initiation s
    else if same event.action "ciba.request_denied"
    then count_if (is_context "reportedSuspicious" "true" event.context) now suspicious_denial_spike
        "rp:" event.rp_id config.suspicious_denial s
    else if same event.action "auth.login_failed"
    then count_if (is_context "reason" "signature_invalid" event.context) now
        signature_failure_burst "binding:" event.device_binding_id config.signature_failure s
    else s

-- SADD and EXPIRE.
abbrev pub with_member : String → Option (List String) → List String
with_member nid none = nid ∷ []
with_member nid (some members) = if includes members nid then members else nid ∷ members

unfoldable pub record_enrolment_attempt :
    AnomalyConfig → ℕ → String → String → AnomalyState → AnomalyState
unfolding raise
record_enrolment_attempt config now source_ip pseudo_nid s =
    let handle = config.source_handle source_ip in
    let key = "anom:enrol:src:" ++ handle in
    let members = with_member pseudo_nid (get now key s.nids) in
    let limit = config.enrol_probe in
    let after = record s {
      nids = set key members (some (now + limit.window_seconds * 1000)) s.nids;
    } in
    if not config.enabled
    then s
    else if leb limit.threshold (length members)
    then raise now (crossed enrolment_probing handle limit (length members)) after
    else after

unfoldable pub record_attestation_rejection :
    AnomalyConfig → ℕ → String → AnomalyState → AnomalyState
unfolding count
record_attestation_rejection config now source_ip s =
    if not config.enabled
    then s
    else count now attestation_rejection_burst ("src:" ++ config.source_handle source_ip)
        config.attestation_rejection s
