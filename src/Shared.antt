-- ===== src/Shared.antt =====
-- packages/shared: assurance levels, error codes and the challenge protocol.
pub mod Assurance
pub mod Errors
pub mod Protocol
