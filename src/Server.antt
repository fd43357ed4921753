-- ===== src/Server.antt =====
-- packages/runtime/src/server
pub mod EventStore
pub mod CapabilityEngine
pub mod CommandBus
