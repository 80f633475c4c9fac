-- ===== src/Attestation.antt =====
-- packages/attestation: the parsers of attacker-supplied bytes.
pub mod Digits
pub mod Der
pub mod Utf8
pub mod Texts
pub mod Base64
pub mod Json
pub mod Node
pub mod Verdict
pub mod Points
pub mod X509
pub mod KeyDescription
pub mod ChainInput
pub mod KeyAttestation
pub mod AuthData
pub mod AppAttest
pub mod IntegrityPayload
pub mod PlayIntegrity
pub mod Samples
pub mod Tests
pub mod Cbor
