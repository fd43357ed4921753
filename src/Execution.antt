-- ===== src/Execution.antt =====
-- packages/runtime/src/execution
pub mod StateRegistry
pub mod AtomicCommit
pub mod AuthorityBoundary
pub mod ExecutionGates
pub mod GateEvaluators
pub mod EventEnforcement
pub mod Invariants
pub mod Kernel
pub mod SagaRegistry
pub mod SagaPayload
pub mod Saga
pub mod Vel
pub mod StateMachines
