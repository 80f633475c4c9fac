-- ===== src/Broker/Tests/Admin.antt =====
-- Runs of the administration of apps/broker, and of its watch over the audit stream.
use sdidfy.Prelude.{◌≡◌, ◌≢◌, refl, true, [], ◌∷◌, some, ok, after_prefix}
use sdidfy.Shared.Assurance.{al2}
use sdidfy.Broker.World.{World, AuditEvent}
use sdidfy.Broker.Handler.{◌>>=◌, event}
use sdidfy.Broker.Pairwise.{subject_for, citizen_for_subject, derive_subject}
use sdidfy.Broker.Token.{authenticate_client}
use sdidfy.Broker.Admin.{
  RegisterRpRequest, RegisterRpResponse, registered, suspend_rp, admin_can_activate, as_admin,
}
use sdidfy.Broker.Admin.Clients.{suspend_rp-bars}
use sdidfy.Broker.Admin.Subjects.{IsIndexed, IsOwn, citizen_for_subject-subject_for}
use sdidfy.Broker.Anomaly.{
  AnomalyConfig, AnomalyDetection, AnomalyState, crossed, ciba_initiation_flood,
}
use sdidfy.Broker.Samples.{env, world, bank}

abbrev application : RegisterRpRequest
application = record {
  name = "Clinic";
  allowed_scopes = "openid" ∷ [];
  max_assurance = al2;
  allowed_flows = "ciba" ∷ [];
  redirect_uris = [];
}

abbrev issued : RegisterRpResponse
issued = record { rp_id = "r2"; client_id = "rp_clinic"; client_secret = "s2" }

abbrev two_parties : World
two_parties = record world { parties = bank ∷ registered env application issued "salt2" ∷ [] }

suspend_rp-bars_example : (registered env application issued "salt2").id ≢ "r1"
suspend_rp-bars_example =
    suspend_rp-bars env "r1" (some ("rp_clinic", "s2")) two_parties
      (registered env application issued "salt2")
      (unfold suspend_rp authenticate_client ◌>>=◌ in refl)

abbrev nobody_known : World
nobody_known = record world { subjects = [] }

nobody_known-IsIndexed : IsIndexed []
nobody_known-IsIndexed citizen_id rp_id row e = absurd cc

nobody_known-IsOwn : IsOwn env "c1" "r1" "salt" nobody_known
nobody_known-IsOwn row e = absurd cc

citizen_for_subject-subject_for_example :
    (citizen_for_subject "r1" "c1" (subject_for env "c1" "r1" "salt" nobody_known).1).0
    ≡ ok (some "c1")
citizen_for_subject-subject_for_example =
    citizen_for_subject-subject_for env "c1" "r1" "salt" "c1" nobody_known nobody_known-IsIndexed
      nobody_known-IsOwn (unfold subject_for derive_subject ◌>>=◌ in refl)

no_token_no_admin : (as_admin "t0" (some "Bearer t1") (suspend_rp "r1") world).1 ≡ world
no_token_no_admin = unfold as_admin admin_can_activate after_prefix ◌>>=◌ in refl

abbrev watch : AnomalyConfig
watch = record {
  enabled = true;
  source_handle = λ ip. ip;
  ciba_initiation = record { threshold = 2; window_seconds = 300 };
  suspicious_denial = record { threshold = 3; window_seconds = 3600 };
  signature_failure = record { threshold = 5; window_seconds = 900 };
  enrol_probe = record { threshold = 10; window_seconds = 900 };
  attestation_rejection = record { threshold = 10; window_seconds = 900 };
}

abbrev unwatched : AnomalyState
unwatched = record { counters = []; nids = []; alerted = []; detections = [] }

abbrev flood : AnomalyDetection
flood = crossed ciba_initiation_flood "rp:r1" watch.ciba_initiation 2

abbrev asked_again : AuditEvent
asked_again = record (event "rp" (some "r1") "ciba.request_created" "success") { rp_id = some "r1" }
