-- ===== src/Lib.antt =====
-- Dotori's server: documents of a workspace are processed in steps that independent executors run,
-- and every step's state lives in tables that several processes share. The parts modelled here are
-- the ones that decide: who may run a job, what a plan is, what a followup may start, who
-- administers a workspace, which request the embedding model serves next and which provider serves
-- a function, what a client's token opens, who may change a file, how much memory is claimed, and
-- when a folder is synchronised.
--
-- - Prelude: Boolean tests on numbers, lists, dictionaries, equality as an interface, and a result
--   type for calls that may raise.
-- - Receipts: the claims, completions and failures of executor jobs, app/orchestration/receipts.py
--   over app/documents/services/receipt_repository.py and the table of
--   app/documents/models/operations.py. `claim_execution`, `complete` and `fail` are the service's
--   functions, `conflicting_job`, `restart` and `create_claim` the repository's. Every call is one
--   transaction under an advisory lock, so a history is a list of calls.
-- - Bindings: app/orchestration/artifact_bindings.py.
-- - Plans: app/orchestration/plans.py (bindings, commands, reports, and records in
--   Plans/Stored), with
--   app/orchestration/control.py in Plans/Control and Plans/Reports, `load_submission` of
--   app/orchestration/submissions.py in Plans/Loading, and in Plans/Contracts the payload and followup checks of
--   app/orchestration/contracts.py over app/capabilities/work_registry.py and functions.py. A plan
--   reads the receipts and artifacts of its steps as values.
-- - Validation: `validate_plan` of app/orchestration/plans.py against the active deployment, over
--   Plans and Routing.
-- - Submissions: the journal of submitted plans, app/orchestration/submissions.py over
--   app/orchestration/command_inputs.py and dispatch.py. A journal is one plan's row, its deliveries
--   and the tasks that the broker was given; a call of `publish_step`, `publish_submission` or
--   `record_response` changes it, and an exception is returned beside the journal that it leaves.
--   `submit_plan` opens or reopens the journal of a request. The domain adapters, the broker, the
--   admission of a work kind, and what the table writes after a send raise at a time, are
--   parameters; where they raise, the tables are rolled back and the task stays sent.
-- - Workspaces: app/workspaces/services.py over app/workspaces/models.py.
-- - Admission: app/documents/embedding/admission.py, as turns of threads under its lock.
-- - Capabilities: the declared capabilities and the order that resolves their dependencies,
--   app/capabilities/registry.py.
-- - Routing: the provider of a function, app/capabilities/deployment.py with the contracts of
--   app/capabilities/functions.py.
-- - CliTokens: the bearer tokens of the command line client, app/accounts/cli_tokens.py.
-- - Files: the access rules of app/files/services/access.py and the paths of app/files/models.py.
-- - Memory: what the model workloads of a machine claim, app/llm_installation/memory_reservations.py.
-- - Sync: the sync daemon, clients/dotori-sync/src/dotori_sync/debounce.py and daemon.py.
--
-- An exception is a value of the part's `Error` and leaves the tables as they were, where it is not
-- returned beside them. Loops are structural recursion on the list that the code iterates. The one
-- recursion on fuel is `visit` of Capabilities, whose fuel is one more than the number of distinct
-- capabilities, its greatest depth. Numbers of the database and the clock are natural numbers. A
-- JSON value stands as its canonical text beside the fields that the code reads, in Memory as a
-- tree, and the record of a plan as dictionaries of its fields by the type of the value, so that a
-- key may be missing and a value has the type that the code reads. SHA-256, `uuid5`, the clock, random tokens, payload validators that are named by an import
-- path, and the repository that resolves an artifact are parameters.
--
-- Not modelled: the HTTP views, serializers and management commands, the parsers, the embedding and
-- language model calls, the search engine's queries, installation and container runtimes, the web
-- front end, the command line and MCP clients, migrations, and the loading of a deployment's files.
pub mod Prelude
pub mod Admission
pub mod Bindings
pub mod Routing
pub mod Sync
pub mod Validation
pub mod Workspaces
pub mod Capabilities
pub mod CliTokens
pub mod Files
pub mod Memory
pub mod Submissions
pub mod Plans
pub mod Receipts
