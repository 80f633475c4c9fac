-- ===== src/Broker/World.antt =====
-- The state that the broker's replicas share: the tables of apps/broker/src/db/schema.ts, the key
-- spaces that it keeps in Redis, and the audit trail. Times are in milliseconds. Columns that no
-- modelled operation reads or writes are left out.
use Prim.Native.String.{String}
use sdidfy.Prelude.{ℕ, Bool, List, Option}
use sdidfy.Shared.Assurance.{AssuranceLevel}
use sdidfy.Broker.Store.{Store}

pub data CitizenStatus : Type 0 where
  citizen_active suspended : CitizenStatus

pub record Citizen : Type 0 where
  pub id : String
  pub pseudo_nid : String
  pub sdid_subject : Option String
  pub status : CitizenStatus

pub data BindingStatus : Type 0 where
  awaiting_activation active revoked : BindingStatus

pub record Jwk : Type 0 where
  pub kty : String
  pub crv : String
  pub x : String
  pub y : String

pub record Binding : Type 0 where
  pub id : String
  pub citizen_id : String
  pub device_pubkey : Jwk
  pub assurance_level : AssuranceLevel
  pub status : BindingStatus
  pub device_label : String
  pub enrolled_at : ℕ
  pub activated_at : Option ℕ
  pub last_used_at : Option ℕ
  pub last_reasserted_at : Option ℕ
  pub revoked_at : Option ℕ
  pub revoke_reason : Option String
  pub push_platform : Option String
  pub push_token : Option String

pub record RelyingParty : Type 0 where
  pub id : String
  pub client_id : String
  pub name : String
  pub client_secret_hash : Option String
  pub allowed_scopes : List String
  pub max_assurance : AssuranceLevel
  pub allowed_flows : List String
  pub redirect_uris : List String
  pub is_active : Bool
  pub pairwise_salt : String

pub record PairwiseSubject : Type 0 where
  pub citizen_id : String
  pub rp_id : String
  pub subject : String

pub data TransactionStatus : Type 0 where
  pending approved denied expired consumed : TransactionStatus

pub record Transaction : Type 0 where
  pub id : String
  pub auth_req_id : String
  pub citizen_id : String
  pub rp_id : String
  pub flow : String
  pub scopes : List String
  pub requested_al : AssuranceLevel
  pub binding_message : Option String
  pub status : TransactionStatus
  pub device_binding_id : Option String
  pub suspicious_report : Option String
  pub expires_at : ℕ
  pub resolved_at : Option ℕ

pub record AuthorizationCode : Type 0 where
  pub code_hash : String
  pub citizen_id : String
  pub rp_id : String
  pub scopes : List String
  pub redirect_uri : String
  pub code_challenge : String
  pub nonce : Option String
  pub assurance : AssuranceLevel
  pub auth_time : ℕ
  pub expires_at : ℕ
  pub consumed_at : Option ℕ

pub record ConsentGrant : Type 0 where
  pub id : String
  pub citizen_id : String
  pub rp_id : String
  pub scopes : List String
  pub source : String
  pub granted_at : ℕ
  pub revoked_at : Option ℕ

-- The `context` of an event is a list of fields, each with its texts.
pub record AuditEvent : Type 0 where
  pub actor_type : String
  pub actor_id : Option String
  pub action : String
  pub subject_ref : Option String
  pub rp_id : Option String
  pub device_binding_id : Option String
  pub assurance : Option AssuranceLevel
  pub sdid_txn_ref : Option String
  pub result : String
  pub context : List (String × List String)

pub record ChallengeRecord : Type 0 where
  pub purpose : String
  pub nonce : String
  pub binding_id : String

pub record CodeFlowStash : Type 0 where
  pub code_challenge : String
  pub nonce : Option String
  pub redirect_uri : String
  pub state : Option String

pub record World : Type 0 where
  pub citizens : List Citizen
  pub bindings : List Binding
  pub parties : List RelyingParty
  pub subjects : List PairwiseSubject
  pub transactions : List Transaction
  pub codes : List AuthorizationCode
  pub grants : List ConsentGrant
  pub audit : List AuditEvent
  pub challenges : Store ChallengeRecord
  pub attestation_nonces : Store ChallengeRecord
  pub counters : Store ℕ
  pub stashes : Store CodeFlowStash
  pub revoked_tokens : Store String
