-- ===== src/Broker/Anomaly/Quiet.antt =====
-- anomaly.service.ts: the rows of one detection while its window lasts.
use Prim.Native.String.{String, ◌++◌}
use mathlib.Core.Bool.{false≢true}
use sdidfy.Prelude.{
  ℕ, suc, ◌+◌, ◌*◌, ◌≡◌, ◌≢◌, refl, sym, ap, ◌∙◌, Bool, true, false, not, List, [], ◌∷◌, Option,
  none, some, ltb, leb, same, same_iff, same_refl, if◌then◌else◌, after_prefix, All, Bool-cases,
  inl, inr, length,
}
use sdidfy.Broker.Store.{Store, get, set, get-set, get-set_other, entry}
use sdidfy.Broker.World.{AuditEvent}
use sdidfy.Broker.Anomaly.{
  AnomalyConfig, crossed, AnomalyDetection, AnomalyPattern, AnomalyState, Limit, suppression_key,
  record_first, raise, count, counted, handle_of_scope, incr_within, on_audit_event, count_for,
  count_if, is_context, record_enrolment_attempt, with_member, record_attestation_rejection,
  ciba_initiation_flood, suspicious_denial_spike, signature_failure_burst,
  attestation_rejection_burst, enrolment_probing, pattern_name,
}

pub data AnomalyCall : Type 0 where
  audited : AuditEvent → AnomalyCall
  enrolment : String → String → AnomalyCall
  rejection : String → AnomalyCall

unfoldable pub run_call : AnomalyConfig → ℕ → AnomalyCall → AnomalyState → AnomalyState
run_call config now (audited event) s = on_audit_event config now event s
run_call config now (enrolment source_ip pseudo_nid) s =
    record_enrolment_attempt config now source_ip pseudo_nid s
run_call config now (rejection source_ip) s = record_attestation_rejection config now source_ip s

-- Each call with the time at which it is made.
unfoldable pub run_calls : AnomalyConfig → List (ℕ × AnomalyCall) → AnomalyState → AnomalyState
unfolding run_call
run_calls config [] s = s
run_calls config ((now, call) ∷ calls) s = run_calls config calls (run_call config now call s)

abbrev pub rows_under : String → List AnomalyDetection → ℕ
rows_under k [] = 0
rows_under k (d ∷ ds) =
    if same (suppression_key d) k then suc (rows_under k ds) else rows_under k ds

abbrev pub is_some : Option String → Bool
is_some none = false
is_some (some x) = true

abbrev pub IsAlerted : String → ℕ → AnomalyState → Type 0
IsAlerted k until s = (t : ℕ) → ltb t until ≡ true → is_some (get t k s.alerted) ≡ true

-- Where a row stands under the key until then, no other comes.
pub record Quiet (k : String) (until : ℕ) (s after : AnomalyState) : Type 0 where
  pub keeps :
      IsAlerted k until s
      → IsAlerted k until after × (rows_under k after.detections ≡ rows_under k s.detections)

module _ (k : String) (until now : ℕ) (before : ltb now until ≡ true) where
  if-Quiet :
      {s a b : AnomalyState} (test : Bool)
      → Quiet k until s a
      → Quiet k until s b
      → Quiet k until s (if test then a else b)
  if-Quiet true first second = first
  if-Quiet false first second = second

  same-Quiet : {s : AnomalyState} → Quiet k until s s
  same-Quiet = record { keeps = λ alerted. (alerted, refl) }

  record_first-Quiet :
      (old : Option String) (d : AnomalyDetection) (s : AnomalyState)
      → get now (suppression_key d) s.alerted ≡ old
      → Quiet k until s (record_first old now d s)
  record_first-Quiet (some old) d s e = same-Quiet
  record_first-Quiet none d s e = record {
    keeps = λ alerted. elim (Bool-cases (same (suppression_key d) k)) [
      | inl hit ↦
          let one = (same_iff (suppression_key d) k).0 hit in
          let there : is_some (get now (suppression_key d) s.alerted) ≡ true =
            rw one (alerted now before) in
          absurd (false≢true (sym (ap is_some e) ∙ there))
      | inr miss ↦
          let other : k ≢ suppression_key d =
            λ one. false≢true (sym miss ∙ (same_iff (suppression_key d) k).1 (sym one)) in
          let dies = now + d.window_seconds * 1000 in
          (
            λ t early.
                ap is_some (get-set_other t k (suppression_key d) "1" (some dies) s.alerted other)
                ∙ alerted t early,
            rw miss refl,
          )
    ];
  }

  raise-Quiet : (d : AnomalyDetection) (s : AnomalyState) → Quiet k until s (raise now d s)
  unfolding raise
  raise-Quiet d s = record_first-Quiet (get now (suppression_key d) s.alerted) d s refl

  aside-Quiet :
      (counters : Store ℕ) (nids : Store (List String)) (s : AnomalyState)
      → Quiet k until s (record s { counters = counters; nids = nids })
  aside-Quiet counters nids s = record { keeps = λ alerted. (alerted, refl) }

  raise_aside-Quiet :
      (counters : Store ℕ) (nids : Store (List String)) (d : AnomalyDetection) (s : AnomalyState)
      → Quiet k until s (raise now d (record s { counters = counters; nids = nids }))
  raise_aside-Quiet counters nids d s = record {
    keeps =
        λ alerted. (raise-Quiet d (record s { counters = counters; nids = nids })).keeps alerted;
  }

  count-Quiet :
      (pattern : AnomalyPattern) (scope_key : String) (limit : Limit) (s : AnomalyState)
      → Quiet k until s (count now pattern scope_key limit s)
  unfolding count
  count-Quiet pattern scope_key limit s =
      let key = "anom:" ++ (pattern_name pattern ++ (":" ++ scope_key)) in
      let observed = counted (entry now key s.counters) in
      let counters = (incr_within now key limit.window_seconds s).counters in
      if-Quiet (ltb observed limit.threshold) (aside-Quiet counters s.nids s) (
        raise_aside-Quiet counters s.nids
          (crossed pattern (handle_of_scope scope_key (after_prefix "src:" scope_key)) limit
            observed)
          s)

  count_for-Quiet :
      (pattern : AnomalyPattern) (kind : String) (id : Option String) (limit : Limit)
      (s : AnomalyState)
      → Quiet k until s (count_for now pattern kind id limit s)
  count_for-Quiet pattern kind none limit s = same-Quiet
  count_for-Quiet pattern kind (some id) limit s =
      if-Quiet (same id "") same-Quiet (count-Quiet pattern (kind ++ id) limit s)

  count_if-Quiet :
      (test : Bool) (pattern : AnomalyPattern) (kind : String) (id : Option String) (limit : Limit)
      (s : AnomalyState)
      → Quiet k until s (count_if test now pattern kind id limit s)
  count_if-Quiet false pattern kind id limit s = same-Quiet
  count_if-Quiet true pattern kind id limit s = count_for-Quiet pattern kind id limit s

  run_call-Quiet :
      (config : AnomalyConfig) (call : AnomalyCall) (s : AnomalyState)
      → Quiet k until s (run_call config now call s)
  unfolding run_call on_audit_event record_enrolment_attempt record_attestation_rejection
  run_call-Quiet config (audited event) s = if-Quiet (not config.enabled) same-Quiet (
      if-Quiet (same event.action "ciba.request_created")
        (count_for-Quiet ciba_initiation_flood "rp:" event.rp_id config.ciba_initiation s)
        (if-Quiet (same event.action "ciba.request_denied")
          (count_if-Quiet (is_context "reportedSuspicious" "true" event.context)
            suspicious_denial_spike "rp:" event.rp_id config.suspicious_denial s)
          (if-Quiet (same event.action "auth.login_failed")
            (count_if-Quiet (is_context "reason" "signature_invalid" event.context)
              signature_failure_burst "binding:" event.device_binding_id config.signature_failure s)
            same-Quiet)))
  run_call-Quiet config (enrolment source_ip pseudo_nid) s =
      let handle = config.source_handle source_ip in
      let key = "anom:enrol:src:" ++ handle in
      let members = with_member pseudo_nid (get now key s.nids) in
      let limit = config.enrol_probe in
      let nids = set key members (some (now + limit.window_seconds * 1000)) s.nids in
      if-Quiet (not config.enabled) same-Quiet (
        if-Quiet (leb limit.threshold (length members))
          (raise_aside-Quiet s.counters nids
            (crossed enrolment_probing handle limit (length members)) s)
          (aside-Quiet s.counters nids s))
  run_call-Quiet config (rejection source_ip) s = if-Quiet (not config.enabled) same-Quiet (
      count-Quiet attestation_rejection_burst ("src:" ++ config.source_handle source_ip)
        config.attestation_rejection s)

run_calls-Quiet :
    (config : AnomalyConfig) (k : String) (until : ℕ) (calls : List (ℕ × AnomalyCall))
    (s : AnomalyState)
    → All (λ (c : ℕ × AnomalyCall). ltb c.0 until ≡ true) calls
    → Quiet k until s (run_calls config calls s)
unfolding run_calls
run_calls-Quiet config k until [] s early = record { keeps = λ alerted. (alerted, refl) }
run_calls-Quiet config k until ((now, call) ∷ calls) s (early, rest) = record {
  keeps = λ alerted.
      let one = (run_call-Quiet k until now early config call s).keeps alerted in
      let more =
        (run_calls-Quiet config k until calls (run_call config now call s) rest).keeps one.0 in
      (more.0, more.1 ∙ one.1);
}

-- A detection that is raised while none stands under its key appends one row, and then no call at all
-- appends another under that key until the window is over, whatever the calls are and however many.
pub raise-once :
    (config : AnomalyConfig) (now : ℕ) (d : AnomalyDetection) (calls : List (ℕ × AnomalyCall))
    (s : AnomalyState)
    → get now (suppression_key d) s.alerted ≡ none
    → All (λ (c : ℕ × AnomalyCall). ltb c.0 (now + d.window_seconds * 1000) ≡ true) calls
    → rows_under (suppression_key d) (run_calls config calls (raise now d s)).detections
      ≡ suc (rows_under (suppression_key d) s.detections)
unfolding raise
raise-once config now d calls s free early =
    let k = suppression_key d in
    let until = now + d.window_seconds * 1000 in
    let alerted : IsAlerted k until (record_first none now d s) =
      λ t in_time. ap is_some (get-set t k "1" (some until) s.alerted) ∙ rw in_time refl in
    let quiet =
      ((run_calls-Quiet config k until calls (record_first none now d s) early).keeps alerted).1 in
    rw free (rw (same_refl k) at quiet)
