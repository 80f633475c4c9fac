-- ===== src/Mobile.antt =====
-- apps/mobile/src/core: the parts of the citizen's app that decide without asking the broker.
pub mod Errors
pub mod Pending
pub mod Transport
pub mod Client
pub mod Wire
mod Tests
