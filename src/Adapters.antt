-- ===== src/Adapters.antt =====
-- packages/runtime/src/adapters: the drivers of external rails, the breaker around them, and the bus
-- between the rails and the commands.
pub mod RailDriver
pub mod CircuitBreaker
pub mod JournalEntry
pub mod BoundaryEventBus
