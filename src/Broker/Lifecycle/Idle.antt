-- ===== src/Broker/Lifecycle/Idle.antt =====
-- Helpers of the handlers of apps/broker that leave the transactions as they are.
use Prim.Native.String.{String}
use sdidfy.Prelude.{ℕ, ◌≡◌, refl, Bool, true, false, List, Option, none, some, arith}
use sdidfy.Shared.Assurance.{AssuranceLevel}
use sdidfy.Broker.World.{World, Binding, RelyingParty, Transaction}
use sdidfy.Broker.Handler.{◌>>=◌, present, refuse_if}
use sdidfy.Broker.Environment.{Environment}
use sdidfy.Broker.Challenge.{Decision, consume_ciba}
use sdidfy.Broker.RateLimit.{hit}
use sdidfy.Broker.Signature.{verify_device_signature}
use sdidfy.Broker.Reverification.{Sdid, ReassertResult, reassert_now, reassert_if_due, act_on}
use sdidfy.Broker.Pairwise.{mint, subject_for, citizen_for_subject}
use sdidfy.Broker.Token.{audit_expiry}

pub hit-idle :
    (now : ℕ) (key : String) (limit seconds : ℕ) (w : World)
    → (hit now key limit seconds w).1.transactions ≡ w.transactions
unfolding hit ◌>>=◌
hit-idle now key limit seconds w = ground arith

pub present-idle :
    {A : Type 0} (o : Option A) (code : _) (http : ℕ) (w : World)
    → (present o code http w).1.transactions ≡ w.transactions
present-idle none code http w = refl
present-idle (some a) code http w = refl

pub refuse_if-idle :
    (b : Bool) (code : _) (http : ℕ) (w : World)
    → (refuse_if b code http w).1.transactions ≡ w.transactions
refuse_if-idle true code http w = refl
refuse_if-idle false code http w = refl

pub consume_ciba-idle :
    (now : ℕ) (challenge_id auth_req_id binding_id : String) (d : Decision) (w : World)
    → (consume_ciba now challenge_id auth_req_id binding_id d w).1.transactions ≡ w.transactions
unfolding consume_ciba ◌>>=◌
consume_ciba-idle now challenge_id auth_req_id binding_id d w = ground arith

pub verify_device_signature-idle :
    (env : Environment) (key : _) (payload signature : String) (w : World)
    → (verify_device_signature env key payload signature w).1.transactions ≡ w.transactions
unfolding verify_device_signature ◌>>=◌
verify_device_signature-idle env key payload signature w = ground arith

act_on-idle :
    (citizen_id binding_id trigger : String) (now : ℕ) (r : ReassertResult) (w : World)
    → (act_on citizen_id binding_id trigger now r w).1.transactions ≡ w.transactions
unfolding ◌>>=◌
act_on-idle citizen_id binding_id trigger now r w = ground arith

reassert_now-idle :
    (sdid : Sdid) (citizen_id binding_id trigger : String) (now : ℕ) (w : World)
    → (reassert_now sdid citizen_id binding_id trigger now w).1.transactions ≡ w.transactions
unfolding reassert_now ◌>>=◌
reassert_now-idle sdid citizen_id binding_id trigger now w = ground arith

pub reassert_if_due-idle :
    (env : Environment) (sdid : Sdid) (citizen_id : String) (b : Binding) (force : Bool)
    (trigger : String) (now : ℕ) (w : World)
    → (reassert_if_due env sdid citizen_id b force trigger now w).1.transactions ≡ w.transactions
unfolding reassert_if_due ◌>>=◌
reassert_if_due-idle env sdid citizen_id b force trigger now w =
    ground (arith, reassert_now-idle sdid citizen_id b.id trigger now w)

pub mint-idle :
    (env : Environment) (now : ℕ) (rp : RelyingParty) (c : String) (scopes : List String)
    (acr : AssuranceLevel) (t : ℕ) (bound : Option String) (w : World)
    → (mint env now rp c scopes acr t bound w).1.transactions ≡ w.transactions
unfolding mint subject_for ◌>>=◌
mint-idle env now rp c scopes acr t bound w = ground arith

pub citizen_for_subject-idle :
    (rp_id subject : String) (w : World)
    → (citizen_for_subject rp_id subject w).1.transactions ≡ w.transactions
unfolding citizen_for_subject
citizen_for_subject-idle rp_id subject w = refl

pub audit_expiry-idle :
    (marked : Bool) (rp_id : String) (txn : Transaction) (w : World)
    → (audit_expiry marked rp_id txn w).1.transactions ≡ w.transactions
audit_expiry-idle true rp_id txn w = refl
audit_expiry-idle false rp_id txn w = refl
