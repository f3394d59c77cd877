-- ===== src/Lib.antt =====
-- A model of the routing of the hosted memory service (saas/src/routing), and of the bodies, names
-- and migration of the memory worker (packages/memory-worker/src) and the write fence of the
-- durable SQL store (saas/src/durable-sql). The routing decides where the memory of a person or an
-- organization may be stored and processed, and keeps the ledgers that account for every request
-- that it sends to a provider.
--
-- The parts, and the files that model them:
--
-- Prelude (with Tests, Tables, Rows, Results): Boolean tests, SQL tables as lists of rows with
--   their queries and updates, and results of code that may throw.
-- Routing/Schema and Routing/Month: the zod schemas that the modules share, and the months of
--   `Date.toISOString`.
-- Routing/Consent models saas/src/routing/consent.ts: the record of an organization's consent to
--   process medical memory with an overseas provider, the check of a request against it
--   (`assert_consent` is assertMedicalCloudflareConsent), and its revocation.
-- Routing/Policy models saas/src/routing/policy.ts: where a request may go, given its
--   classification, the restrictions of its Space and the consent it has (`resolve_memory_route` is
--   resolveMemoryRoute), and the check of a plan at the server that receives it.
-- Routing/Capabilities models saas/src/routing/capabilities.ts: the capabilities that a Seoul server
--   declares, and the check of its answer to a keyword search.
-- Routing/SpaceLedger models saas/src/routing/general-ledger.ts, the durable object of one Space:
--   Rows has the tables, their constraints and triggers; Inputs the inputs and their schemas;
--   Admissions and Retirements the methods. An operation is admitted, checked before it is
--   dispatched and before its result is disclosed, and finalized; a retirement begins a new
--   generation.
-- Routing/Budget models saas/src/routing/budget-ledger.ts, the durable object of a deployment's
--   budget: Rows has the tables, Inputs the inputs, Reservations the methods. A reservation is
--   charged to the current month under the policy of that month, and is finalized later.
-- Routing/ConsentLedger models saas/src/routing/ledger.ts, the durable object of one organization:
--   Rows has the tables, Inputs the inputs and their schemas, Methods the methods on the record,
--   and Exchanges those on receipts and tickets. It keeps the current record of consent with an
--   audit trail of its versions, issues receipts for requests that the record allows, exchanges a
--   receipt for a ticket, and checks the ticket again (`check_ticket` is checkTicket) before the
--   provider is called and before the result is disclosed.
-- Routing/Executor models saas/src/routing/general-executor.ts, which runs a request against the
--   ledgers and the memory provider. Requests and Encodings have the schemas of the arguments
--   (saas/src/routing/client.ts); Ports what the executor calls, over a state S of the world that
--   every call may change, also where it throws, with the variables of the closure and a log of the
--   calls; Answers the results; Admission the inner functions; Clearing and Dispatching the
--   operations; Execution the `try` and the `catch` (`execute` is the function that
--   createGeneralExecutor gives); Reconciliation reconcileGeneralRetirements. The ports are a
--   parameter: IsSpace, in Once, is what they are with a Space ledger as modelled behind them.
--   Prelude/Actions has the code that may throw and keeps its writes.
-- Residency (Policies, Placement, Derivation) models saas/src/postgres/residency-policy.ts: the
--   labels that say where data is stored, and their derivation from the labels of several sources
--   (`parse_data_policy` is parseDataPolicy, and the other functions have their names too).
--
-- MemoryWorker models parts of the worker of packages/memory-worker/src: Bits has facts on binary
--   digits; Security models security.ts, the names of profiles (`resolve_profile_name` is
--   resolveProfileName) and the comparison of states; Body models body.ts, the reading of a body in
--   chunks up to a limit, where a stream is a function from the number of a read to what it gives;
--   Migration models migration.ts, which copies a legacy profile through a client of the memory
--   service. The state of that service and the client are parameters, and a call that throws may
--   have changed the state.
--
-- Texts has JavaScript's strings as lists of code units. DurableSql/Fence models
--   saas/src/durable-sql/fence.ts: the plan of the triggers that stop writes to a database, and its
--   verification against the catalog of the database (`build_write_fence` is buildWriteFence).
--
-- The state of a durable object is a record of its tables. Its methods run in `transactionSync`, so
-- each is a function from the state to a result that holds the new state, and a method that throws
-- leaves the state as it was; `History` composes calls in this way, in any order. What a call reads
-- from outside (the clock, the name of the object, a fresh random identifier) is its `Env`. A
-- constraint or a trigger that fires is the error `aborted`. Each ledger has a relation of its
-- writes in `Steps`, and `Refinement` relates the methods to it.
--
-- Numbers of the source are integers between 0 and 2^53 - 1 by their schemas, and are natural
-- numbers here. The costs of a budget stay below 2^53, so JavaScript's sums are exact. `decimal_on`
-- has fuel for 20 digits, and the numbers of a policy have 16 at most. `read_loop` has fuel for its
-- rounds, one for each chunk of a stream and one for its end; each chunk that is not empty brings
-- the total nearer to the limit.
--
-- Not modelled: SHA-256 (a parameter wherever it is used), the text of errors and their HTTP
-- status (but for a refused body), `Object.freeze`, and the parts of the repository outside these files: the authority and
-- the HTTP API of general memory, the tools and sessions of the memory worker, the rest of the
-- durable SQL store, the Seoul service, billing, and the user interfaces. `toLowerCase`, the JSON
-- text of an array with its digest, `TextDecoder` and `JSON.parse` are parameters of the worker's
-- modules. The schemas reject unknown fields and values of other types, which the types of the
-- model do not have. In the executor, a hash is a parameter over what is hashed, the two records of
-- an outcome that are written at once are written in order, and a candidate of the provider is its
-- JSON text. `json_valid` of a stored policy is left out, since the ledger itself prints it.
pub mod DurableSql
pub mod MemoryWorker
pub mod Prelude
pub mod Residency
pub mod Routing
pub mod Texts
