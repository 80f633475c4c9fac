-- ===== src/Broker/Tests.antt =====
-- Runs of the handlers of apps/broker at concrete requests.
mod Lifecycle
mod Trust
mod Limits
mod Attested
mod Enrol
mod Signing
mod Keys
mod Admin
