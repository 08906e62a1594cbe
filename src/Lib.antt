-- ===== src/Lib.antt =====
-- Agent-ROI: the governed runtime of agents, the ledger of their value, and the control plane of their
-- policies, as executable definitions with theorems about them.
--
-- The program lets an agent run under limits. An agent reaches tools only through a context, which checks
-- each call against guardrails, a registry of tools, an authorizer and an approval, reserves its cost, and
-- then runs the handler through a store of idempotency records, a retry loop and a circuit breaker. Beside
-- the runtime stand a ledger of the value that agents bring, and a control plane that keeps, signs,
-- activates and rolls out the policies. An outbox keeps events until a worker has delivered them, and an
-- audit trail chains what happened by hashes. Roles and a directory of users and groups say what a
-- principal may do. Scripts, split into statements, bring the schema of a database up to date.
--
-- Files, and the code they translate (all under src/agent_roi/):
--   * Resilience/Retry: `RetryPolicy` and `retry_call` of runtime/resilience.py.
--   * Resilience/Breaker: `CircuitBreaker` of runtime/resilience.py.
--   * Resilience/Idempotency: `SqliteIdempotencyStore` and `IdempotencyPolicy.prepare` of the same file.
--   * Control/Guardrails: `Guardrails` of control/guardrails.py.
--   * Tools/Grant, Tools/Spec, Tools/Registry: `ApprovalGrant`, `ToolSpec` and `ToolRegistry` of
--     runtime/tools.py.
--   * Context: `SentinelContext` of runtime/context.py. Context/Types has its data, Context/Counters
--     `bump_step`, `bump_tool_call` and `add_cost`, Context/Resolve `_resolve_tool`, `_estimated_cost` and
--     `_authorize_access`, Context/Prepare `_approval_checkpoint`, `_authorize` and `_prepare_call`,
--     Context/Execute `_execute_sync`, and Context/Call `call_tool`. The other files of the folder have
--     lemmas and theorems.
--   * Roi: `RealizedROILedger` of roi/ledger.py. Roi/Types has the rows and the money, Roi/Ledger the
--     operations that write, Roi/Summary `list_opportunities` and `portfolio_summary`.
--   * ControlPlane: ControlPlane/Store and ControlPlane/Agents are `SqliteControlPlaneStore`, and
--     ControlPlane/Service is `PolicyBundle.create`, `PolicyBundle.verify` and `ControlPlaneService`, of
--     enterprise/control_plane.py.
--   * Approvals/Broker: `ApprovalBroker` of approvals/base.py, without a repository.
--   * Outbox: Outbox/Store is `OutboxEvent` and `SqliteOutboxStore`, and Outbox/Worker is `OutboxWorker`, of
--     enterprise/outbox.py. Outbox/Phases is what the store promises about one event: the moves that it
--     may make between waiting, a lease and its ends. The worker calls handlers through Resilience/Retry
--     and Resilience/Breaker.
--   * Audit: Audit/Event is `AuditEvent` of audit/event.py and the check of a chain, Audit/Memory
--     `InMemoryAuditStore`, Audit/Lines `JsonlAuditStore` and Audit/Sqlite `SqliteAuditStore` of
--     audit/store.py, and Audit/Redact `redact` of audit/redact.py.
--   * Identity: Identity/Principal has `Principal`, `RoleDefinition` and `RoleBinding`, Identity/Rbac
--     `RBACAuthorizer`, Identity/Scim `SCIMUser` and `SCIMGroup`, and Identity/Directory `SCIMDirectory`, of
--     enterprise/identity.py. Identity/Tables and Identity/Store are `SqliteIdentityStore`, and
--     Identity/Roles its roles and bindings with `DynamicRBACAuthorizer`.
--   * Policies: Policies/Value has what a parsed document holds, Policies/Validate and Policies/Sections are
--     policies/validate.py, and Policies/Loader is `policy_from_mapping` of policies/loader.py, over
--     Control/Guardrails and Control/Decision. The files of the folder Policies/Loader have lemmas and the
--     theorem.
--   * Database: Database/Split is `split_sql_statements`, and Database/Migrate is `Migration` and
--     `PostgresMigrationManager`, of db/core.py.
--   * Control/Decision: `DecisionPolicy` of control/decision.py.
--   * Runtime/Executor: a synchronous run of `SentinelRunner` of runtime/executor.py, over the context and
--     the decision policy.
--   * Base, Result, Exec, Dict, Table, Sort and Float are shared: texts and lists, exceptions as values,
--     methods that change an object and may raise, dictionaries, the tables of SQLite, ORDER BY, and floats.
--
-- How the code is rendered:
--   * An exception is a constructor of an error type. A method is a function from the object to its
--     outcome and the object as it leaves it, so what was written before a raise stays written, and what
--     a transaction rolls back does not.
--   * Floats are a parameter, `Float`, with the laws of IEEE 754 that the theorems use; whole numbers are
--     an instance, at which the examples run. Counters and times are natural numbers.
--   * A table is the list of its rows in the order of insertion, and a statement is a function with a
--     Boolean test for its WHERE clause.
--   * A wait between attempts, and the delay of the outbox, may raise, as the power of floats in them does
--     that overflows. The audit emitter of a context may raise before it has recorded an event, as the
--     store does, or behind that, as a sink does; it is an argument of the context, and the run of
--     Runtime/Executor takes what its agent does, with such errors, as one function.
--   * Hashes, identifiers drawn at random, readings of clocks, handlers, callbacks and authorizers, and
--     how Python orders values by their `repr`, are arguments. A lock makes a method atomic; where a method reads outside its lock and writes inside it,
--     the write is a definition of its own.
--   * No definition runs on fuel: loops are recursive over the attempts that are left or over the rows.
--
-- Not modelled: the asynchronous variants, which do the same around awaited calls; the PostgreSQL
-- stores, which run the same statements; HTTP, FastAPI, the command line, adapters and telemetry, which are
-- input and output; the repository and the providers of approvals, which the definitions here take as
-- arguments where they need them; and the verification of tokens.
pub mod Base
pub mod Result
pub mod Dict
pub mod Table
pub mod Sort
pub mod Float
pub mod Resilience
pub mod Control
pub mod Exec
pub mod Tools
pub mod Context
pub mod Roi
pub mod ControlPlane
pub mod Approvals
pub mod Outbox
pub mod Audit
pub mod Identity
pub mod Runtime
pub mod Database
pub mod Policies
