-- ===== src/Lib.antt =====
-- RemedyGraph reads the corrective actions of an incident, compiles them into requirements with
-- deterministic checks, and gives a verdict on each from the evidence in a repository. This
-- library models its core, the Python package `backend/app`, and states what it guarantees.
--
-- The parts, with the file that models each:
-- - `backend/app/ids.py`: Ids. The stable ids of all records.
-- - `backend/app/models.py` and `backend/app/audit/contracts.py`: Models and Audit/Contracts. The
--   records, less timestamps, durations and the metadata of nodes; the enumerations; and the
--   validators as Boolean functions.
-- - `backend/app/audit/budget.py`: Audit/Budget. `BudgetTracker`; a method returns the tracker
--   beside its result. `BoundedProviderGateway` is Audit/Gateway.
-- - `backend/app/audit/compiler.py`: Audit/Compiler, with the words of an action in
--   Audit/Compiler/Terms. What is asked of `re` and `str` is the record `TextTools`.
-- - `backend/app/audit/verifier.py`: Audit/Verifier. `verify_action` in steps: `facts` selects,
--   `assess` decides, `cite` is `_citations`.
-- - `backend/app/audit/graph.py`: Audit/Graph, with names and keys in Audit/Graph/Keys and
--   `validate` in Audit/Graph/Validate.
-- - `backend/app/storage.py`: Storage, the tables; Storage/Budget, the budget of an incident;
--   Storage/Guards, guards and their decisions; Storage/Action, methods that read and write the
--   store; Storage/Incidents, `get_incident` and the order of listed rows; Storage/Validate,
--   `_validate_audit_state`; Storage/Snapshot, `save_audit_state` and `load_audit_state`;
--   Storage/Records, projects, incidents with their actions, and repository indexes.
-- - `backend/app/audit/checks.py`: Audit/Checks. What the parsers give is data in
--   Audit/Checks/Documents; Audit/Checks/Keys has keys, numbers and queries; Audit/Checks/Scan and
--   Audit/Checks/TestSearch search the files; Audit/Checks/Runner builds executions, and
--   Audit/Checks/Run is the four checks and `run`, here `run_check`.
-- - `backend/app/audit/workflow.py`: Audit/Workflow, the events and the interface of what the stages
--   call; Audit/Workflow/Parts, what they compute without the database; Audit/Workflow/Stages, the
--   seven nodes as actions on the store; Audit/Workflow/Run, `run` and its failure path.
--   Audit/Workflow/Machine is the abstract life of a run, a step relation on phases, and its sibling
--   modules relate the log of a run to it.
-- - `backend/app/guards/contracts.py` and `backend/app/guards/service.py`: Guards/Contracts and
--   Guards/Service. `decide` and `execute` keep the source's order of reads, writes and raises.
-- - `backend/app/rag/safety.py`: Rag/Safety/Boundary, Rag/Safety/Denial and Rag/Safety/Walk. A
--   directory is a tree of what the file system answers, and the walk is a recursion on it.
-- - `backend/app/rag/chunking.py`: Rag/Chunking, the chunks of a span, with the lines that
--   `splitlines` gives; Rag/Chunking/Spans, the spans of a document.
--
-- They meet as in the program: the guard service works on the store's tables through
-- Storage/Guards, which reads the verdicts and invariants of an audit; the tracker and the store
-- share `BudgetUsage`; the walk asks the boundary about each file. The workflow calls the compiler,
-- the verifier, the graph builder and the store directly, and the index, the search and the checks
-- through the record `Services`; Audit/Workflow/Checking puts the modelled checks in it.
--
-- An exception is a value of `Error` in a `Result`, see Result; a transaction that raises gives
-- the store back as it was before. Every function is a structural recursion. Fuel is used for the
-- digits of `str`, where a number bounds its digits, and for the loop over the lines of a span,
-- where a round for each line is enough.
--
-- Parameters of the model: SHA-256; `TextTools` and `CheckTools`, which are what is asked of `re`,
-- `str`, `pathlib`, the parsers and `redact_text`; `accepts`, the constraints that the database checks
-- at a commit; the runner of guards; the index and the search; `invoke` of `langgraph`, of which the
-- theorems ask that a graph without branches runs its nodes in order; the order in which a set is
-- listed; and what the file system answers. A float of a check is its exact value, an infinity or not
-- a number; its conversion from an int, which may overflow, and its rounded products and quotients
-- are parameters. Numbers in ratios, confidences and coverage are exact. An exception of a
-- subclass that the model does not have bears the name of its class; a parser that runs out of
-- stack raises a RuntimeError.
--
-- Not modelled: timestamps and durations; the spans of Python code, retrieval, ingestion and
-- redaction; the investigation tools; the generator and the runner of guards, and previews; schema
-- migrations, and the latest index of a project; the evaluation, the HTTP routes, the command line and
-- the frontend. They are input and output, third-party parsers and models, or glue around the parts
-- above.
pub mod Prelude
pub mod Result
pub mod Ids
pub mod Models
pub mod Audit
pub mod Guards
pub mod Storage
pub mod Rag
pub mod Tests
