-- ===== src/Lib.antt =====
-- The SOVR Protocol runtime, packages/runtime/src: the kernel that runs commands, and the stores,
-- guards and drivers around it.
--
-- A command comes to the bus, which normalises its envelope and asks its own gates, on identity,
-- capability, policy and the constitution, before it calls the kernel; behind a commit it changes
-- the capabilities and tells the projections. The kernel asks, in this order, whether the command
-- is known and names its actor, the boundary of capabilities, the type of the actor, the authority
-- boundary, the constitution, the gates, the sovereignty of states, the capability engine and the
-- rules; what these checks append to the event store, a denial, the failure of a gate or its
-- warning, comes before anything that the command itself leaves. It then plans the transitions and
-- the events of the command by the compiled state machines, and commits both: the states first,
-- then the events, with the states put back when the event store refuses them. Beside the kernel
-- stand the wrapper that guards an event store, and the drivers of external rails.
--
-- Above the kernel stand two ways to run several commands. The saga interpreter sends the steps of
-- a saga to a bus and compensates the completed ones when a step fails. The orchestration runs the
-- plan of an intent: each step is routed, weighed by the policies, and recorded in a chain of
-- events.
--
-- The parts and the files, whose paths are from packages/runtime/src:
--   Server.EventStore         server/eventStore.ts: the log, the counter and the three indexes are
--                             the fields of EventStore; append_many_atomic is appendManyAtomic.
--                             Causation, Atomic and Indexes below it hold its proofs.
--   Server.CapabilityEngine   server/capabilityEngine.ts: grant, revoke, rebuild_from_store and
--                             check, with the cache of its answers.
--   Server.CommandBus         server/commandBus.ts: the envelope, the coverage and the gates; submit
--                             is in Submit.Steps, over the kernel and the capability engine, and what
--                             it does behind its gates is in Submit.
--   Execution.StateRegistry   execution/state-registry.ts: the states and histories by key;
--                             set_state, rollback_state and rebuild_from_events are setState,
--                             rollbackState and rebuildFromEvents.
--   Execution.AtomicCommit    execution/atomic-commit.ts: execute is execute, over any event store.
--   Execution.AuthorityBoundary
--                             execution/AuthorityBoundaryEnforcer.ts: check, with the events that
--                             it emits as part of the answer.
--   Execution.ExecutionGates  execution/ExecutionGateEnforcer.ts: check, over any evaluators.
--   Execution.GateEvaluators  execution/GateEvaluators/: one function for each gate.
--   Execution.EventEnforcement
--                             execution/AuditTrailEnforcer.ts, EventOrderingEnforcer.ts and
--                             EventStoreEnforcementWrapper.ts: enforce_audit, enforce_ordering and
--                             append, over any store.
--   Execution.Invariants      execution/CapabilityBoundaryEnforcer.ts,
--                             ConstitutionalSupremacyEnforcer.ts and StateSovereigntyEnforcer.ts.
--   Execution.Kernel          execution/kernel-executor.ts: the checks in Kernel itself, the plan
--                             in Kernel.Plan and Plan.Events, and execute in Kernel.Execute, over the
--                             modules above; Kernel.Audits has the events that the checks append.
--                             Kernel.Reachable has the kernel as a relation between its states, one
--                             step for each command, and Kernel.Denials is about a denial.
--   Execution.Vel             execution/vel-ast-evaluator.ts and the trees of packages/shared/src/vel:
--                             evaluate is evalAst.
--   Execution.StateMachines   execution/state-machine-interpreter.ts: the registration; execute and
--                             transition_aggregate, in Transitions, are execute and
--                             transitionAggregate.
--   Execution.SagaRegistry    execution/saga-registry.ts: the instances of sagas.
--   Execution.SagaPayload     execution/saga-payload-mapper.ts: the payload of a step, with the
--                             paths that lead into the results of earlier steps.
--   Execution.Saga            execution/saga-interpreter.ts: start, advance and compensate, in
--                             Saga.Run, over any bus and any event store.
--   Orchestration             orchestration/types.ts: commands, events, routes, rules and intents.
--   Orchestration.CommandRouter, PolicyGateway, EventDispatcher
--                             orchestration/command-router, policy-gateway and event-dispatcher.
--   Orchestration.EventHash   the hash of orchestration/transaction-coordinator.
--   Orchestration.TransactionCoordinator
--                             orchestration/transaction-coordinator: the events, and in Transactions
--                             execute, over the router, the gateway and the dispatcher.
--   Orchestration.WorkflowEngine
--                             orchestration/workflow-engine: the steps of an intent, each a
--                             command for the coordinator.
--   Adapters.RailDriver       adapters/base/BaseRailDriver.ts: submit, with its circuit, retries,
--                             counters and audit records.
--   Adapters.BoundaryEventBus adapters/BoundaryEventBus.ts and RailDriverRegistry.ts: a submission by
--                             the name of its rail, and the commands that answers become.
--   Audit.MerkleRoot          audit/MerkleRootService.ts: compute.
--   Adapters.CircuitBreaker   adapters/circuit-breaker.ts: execute, one call after another.
--   Adapters.JournalEntry     adapters/tigerbeetle/TigerBeetleTransferBuilder.ts: journalEntry, over
--                             any ledger.
--   Prelude                   lists, texts, signed integers, maps and dynamic values. JSON values are
--                             Prelude.Value.Value, texts are String, and a Map is an association list
--                             in the order of insertion, in which a second insertion overwrites.
--
-- An object that changes is a record passed on from call to call; a method that throws answers a
-- Result. What an enforcer emits to an event store whose answer it does not read is part of its own
-- answer, and Kernel.Execute appends it to the store. Clocks, identifiers, the disk, the compiled
-- registries, RegExp, BigInt and Number on texts, the ledger and the rails are arguments, and each
-- may answer anything unless a theorem says more.
--
-- Numbers are native ones without a bound, as a counter or an array index here stays far below 2 ^
-- 53, and bigint is Prelude.Int. Every loop is over a list, except the retries of a rail, which
-- recur on the attempts that are left, and the digits of a number. The fuel of decimal digits is
-- the number itself, as a number has no more digits than that; a hash has sixteen hexadecimal
-- digits, as it is masked to 64 bits. A Merkle tree has as many rounds as leaves, which are more
-- than it needs. A text is split and read by recursion on its characters.
--
-- What is left out: the PostgreSQL branches and the clients of Kafka, Redis, the ledger and the
-- rails, which are input and output; load, replay and the statistics of the event store; the gate
-- on time windows, which is about the calendar of the host; calls that overlap in time; durations
-- and time stamps of records that no code reads; the store behind the capability engine, whose
-- errors are caught. The rule evaluator and the answer of the capability engine are parameters of
-- the kernel. The projections behind their calls, the start of the bus, the grammar of conditions
-- and the HTTP server are outside this library.
pub mod Prelude
pub mod Server
pub mod Execution
pub mod Adapters
pub mod Orchestration
pub mod Audit
