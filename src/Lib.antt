-- ===== src/Lib.antt =====
-- A verification of zglab-rag, a retrieval service with accounts: the parts that decide who is let in,
-- how often, and which answers are let out.
--
-- The parts and their files:
-- * Limits models what bounds the use of the service. Limits/RateLimit is `RateLimiter` of
--   src/zglab_rag/api/rate_limit.py (check, reset, remaining); Limits/Throttle is `LoginThrottle` of
--   src/zglab_rag/auth/throttle.py (check_and_record, _prune, _retry_after, reset). Limits/Window has
--   the list of times that both keep, and what bounds it. Limits/Quota is `UsageGuard` of
--   src/zglab_rag/auth/quota.py over `UsageRepository` of repositories.py.
-- * Auth models the accounts. Auth/Models has the records and the errors of src/zglab_rag/auth/models.py
--   and errors.py; Auth/Tables the statements of repositories.py; Auth/Db the audit log of audit.py;
--   Auth/Password the policies on names and passwords. Auth/Identity is `IdentityService` of identity.py
--   (provision_user, activate_account, reset_password_with_token, admin_reset_password, set_enabled,
--   revoke_sessions); Auth/Session is `SessionService` of session.py (login, logout, resolve_session,
--   change_password, verify_csrf). Auth/History has runs of any of these operations, in any order.
-- * Generation models the making of an answer, over the records of src/zglab_rag/generation/contracts.py:
--   Generation/Citation is citation.py, Generation/Context the evidence, its budget and the prompts of
--   context.py, Generation/Service the repair loop and `GroundedAnswerService` of service.py.
-- * Mcp models the host of the tools. Mcp/Contracts has the records of src/zglab_rag/mcp/contracts.py,
--   errors.py and policy.py; Mcp/Runtime is `MCPToolRuntime` of runtime.py (list_tools, close and the
--   connection), Mcp/Runtime/Call its call_tool. The runtime has a log of what it did to the server, and
--   Mcp/Runtime/Reach the runs of its methods, one after the other.
-- * Agent models the bounded agent. Agent/Plan has the plans of src/zglab_rag/agent/planning.py with
--   their validators; Agent/Planner is `BoundedPlanner`; Agent/Executor is `BoundedAgentExecutor` of
--   execution.py.
-- * Index models the index of the knowledge. Index/Plan is planner.py of src/zglab_rag/indexing;
--   Index/Store has the tables and the statements of src/zglab_rag/storage/repositories.py, and
--   Index/Store/Apply `apply` and the `build` of indexing/indexer.py.
-- * Ingestion/Chunking is the splitting of a long section of src/zglab_rag/ingestion/chunking.py.
-- * Conversation/Budget is the truncation of a text in src/zglab_rag/conversation/context.py, and
--   Conversation/Query the retrieval query of a conversation.
-- * Api/Slots is `ConcurrencyGuard` of src/zglab_rag/api/concurrency.py and how `ask_v2` of
--   src/zglab_rag/api/main.py takes and gives back its slots; Api/Slots/Held has the runs of
--   requests and of their tasks.
--
-- How the code is rendered. A table is the list of its rows in the order of their ids; an UPDATE is a
-- map over the rows that its WHERE selects; an INSERT fails where a UNIQUE column has the value, and
-- else gives the row the largest id plus one. A method is a function from the tables to a result or an
-- exception and the tables after it; a transaction that raises gives back the tables from before it.
-- A method has one clock reading, an argument, and the random values that it draws are arguments. The
-- sliding windows count time in milliseconds, so that the least wait, 0.1 seconds, is 100; the quota
-- counts microseconds, and numbers the days and the minutes that the code formats; the accounts count in
-- any unit. Text is a list of code points. A call under a lock is one step.
--
-- Parameters. `Platform` has what the code calls: str.strip, str.lower, str of a number, SHA-256,
-- HMAC-SHA-256 and argon2. `Python` has what the planner calls: str.strip, str.lower and the search for
-- a labelled value by a regular expression. `World` has the answers of the capabilities to the executor
-- and the clock. `Provider` is the language model and the parser of its output, and `str_int` is str of a
-- number. A call of the MCP runtime comes with how the start of a server, the call and the closings end;
-- `measure` is the length of JSON in bytes, `bytes_of` that of a character in UTF-8. `sha256` and what
-- the embedding of a plan returns are given to the indexer. A theorem that needs something of one of
-- them says what, as that `str.strip` makes no text longer. The repair loop counts down the attempts
-- that are left; the loop of the splitting has the length of the text for fuel, which is enough, since
-- each round starts at least one character later.
--
-- Not modelled: the application log, the timing of the dummy verification, the schema's foreign keys
-- (no user is ever deleted; of the index's tables, the keys on documents and chunks are modelled),
-- latencies and token counts, the calls of language models and of the MCP child process, and how
-- concurrent calls of the MCP runtime wait for its semaphore.
pub mod Prelude
pub mod Limits
pub mod Auth
pub mod Generation
pub mod Agent
pub mod Mcp
pub mod Index
pub mod Ingestion
pub mod Conversation
pub mod Api
