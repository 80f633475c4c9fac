-- ===== src/Broker.antt =====
-- apps/broker: the identity bridge.
pub mod Store
pub mod Table
pub mod World
pub mod Handler
pub mod Environment
pub mod Challenge
pub mod RateLimit
pub mod Signature
pub mod Attestation
pub mod Admin
pub mod Anomaly
pub mod Reverification
pub mod Devices
pub mod Session
pub mod Consent
pub mod Pairwise
pub mod Ciba
pub mod Token
pub mod Authorize
pub mod Userinfo
pub mod Enrolment
pub mod Lifecycle
pub mod Guards
pub mod Audit
pub mod Jose
pub mod Keys
pub mod Custody
pub mod Samples
pub mod Tests
