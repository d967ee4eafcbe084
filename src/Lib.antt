-- ===== src/Lib.antt =====
-- Verification library of the EiraOS chat backend (src/eiraos, Python).
--
-- The backend answers chat requests on behalf of the members of an organization. A request is
-- authorized, a provider call is permitted, its key is reserved against repetition, its tokens are
-- reserved, the execution is recorded, and at its end everything is closed in one transaction. Each
-- of these parts is a module here; a part's children hold its data and operations first and then
-- its theorems, and its Tests hold runs at concrete inputs.
--
-- - Prelude: Boolean tests, lists, results, tables (Rows, Keyed), integers (Int) and Python's text
--   operations (Text). A table is the list of its rows; `select` is a query that finds at most one
--   row, `update` writes it, `update_all` and `delete_all` are the bulk statements.
-- - Http: FastAPI's HTTPException and the request state that the services read.
-- - Idempotency: src/eiraos/core/idempotency.py over src/eiraos/domains/idempotency/models.py.
--   Key resolves the header and the context, Begin is begin_idempotency (attempt is one round of
--   its loop, decide the branches on the locked row), Lease is the renewal, the completion, the
--   cached answer and the clean-up. What other transactions do between two statements of one begin
--   is a parameter (World), so a theorem on begin speaks of every interleaving. The loop of three
--   rounds is recursion on the two retries that are left.
-- - Budget: src/eiraos/domains/usage (Estimator, Reservation, Execution) and the in-process gate of
--   src/eiraos/core/usage_budget.py and src/eiraos/application/usage_execution.py (Gate). Redis is
--   an interface (RedisServer): the commands that the Lua scripts use, with the documented effect
--   of each as a law. A call of the client may find no client, fail before the script, lose the
--   reply of a script that ran, or answer (Connection).
-- - Conversation: the aggregate of src/eiraos/domains/conversations/state.py (State) and its row,
--   src/eiraos/application/conversation_state.py (Row).
-- - Governance: src/eiraos/domains/governance/capabilities.py (Capabilities, Decision), the
--   boundary of src/eiraos/application/authorization.py (Boundary), and the provider gate of
--   src/eiraos/application/provider_execution_policy.py (Provider) with the allowed models of
--   src/eiraos/application/providers/policy.py (Models). A set of capabilities is its membership
--   test. The environment variables are a parameter.
-- - Chat: src/eiraos/application/chat_persistence.py. Session is one transaction: a query, a flush
--   or the commit may fail (Faults, Commit), a stop before the commit is a rollback, and a commit
--   may be done, refused, or done with its reply lost. Prepare is prepare_exchange on the rows of
--   Exchange, Recover is mark_streaming and assert_recovery_allowed, Finalize is finalize with the
--   accounting of Accounting, and Failure the policy of src/eiraos/application/chat_recovery.py.
--   The record that it checks and closes is the row of Idempotency.
-- - Agent: src/eiraos/application/agent_loop.py (Run, Loop) with the tool authorization and the
--   execution budget (Tool). A run is a computation on its trace and its budget; the planner, the
--   authorization, the tools, the clock and the audit writer are an Environment that answers for
--   each depth, so a theorem holds whatever they answer. The rounds recurse on the depth that is
--   left. A cancellation is modelled where the loop handles it, at the calls, not at the writes of
--   the audit. Runtime is src/eiraos/application/agent_runtime.py over the registry of
--   src/eiraos/application/tool_registry.py: what it gives the loop as authorization and as tool;
--   Schema is its check of the values, which recurses on the schema.
-- - Completion: the chat route, src/eiraos/api/v1/chat.py. Raised has the exceptions that it
--   tells apart, Program the computations on its variables. Isolation is
--   src/eiraos/application/provider_failure_isolation.py, Pump and Finalizer are
--   src/eiraos/application/streaming_lifecycle.py, Verify is the verification of
--   src/eiraos/application/business_features.py. Preflight and Prepare are the boundary of
--   src/eiraos/application/chat_execution.py with the route's callbacks and what it undoes when
--   one fails (FailPreflight); Stream and Generator are event_generator, Complete the answer that
--   is not streamed. Both end an execution by finalize of Chat, on its tables. Asked joins the
--   stream with the accountant and the catalog of Pricing. An Environment has the answers of the
--   services, the clock and the client, so a theorem holds whatever they are: a client may leave
--   at any frame, and where the event loop grants no more waits the task is cancelled. The loop
--   over the pump's events recurses on these waits.
-- - Pricing: the catalog of src/eiraos/application/providers/capability_discovery.py with the models
--   that src/eiraos/application/providers/governed.py offers (Catalog), and the accountant of
--   src/eiraos/application/cost_accounting.py (Account), whose entries finalize of Chat records. A
--   price and a cost are whole numbers of the accountant's quantum, 0.0000000001 dollars.
-- - Context: src/eiraos/application/context_construction.py (History, Builder). The extract of older
--   messages is given the messages that the builder found eligible, so its own filter has nothing
--   left to do.
-- - Memory: the store of src/eiraos/application/memory_runtime.py (Durable) over its rows
--   (Records), and the messages and conversations that it may name as a source; Provenance is the
--   trace of src/eiraos/application/provenance.py, whose walk recurses on the depth that is left.
--
-- Numbers. Instants are microseconds, and one call of a service reads the clock once; the agent
-- loop has its own readings. Ids, counts and tokens are natural numbers where the code never makes
-- them negative, and integers where it tests the sign; costs are whole numbers of the smallest unit
-- in place of floats and decimals. No recursion needs fuel but `digits`, the decimal form of a
-- number, for which the number itself is enough.
--
-- Text. `strip`, `len`, truthiness and comma splitting follow Python on code points. `lower` and
-- `upper` are written out for the Latin letters and for the other characters whose lower or upper
-- case is of ASCII letters (the Kelvin sign; the sharp s, the dotless i, the long s and seven
-- ligatures); so a converted text equals one of the program's ASCII names exactly when Python's
-- does. Budgets and costs that the source carries in floats are whole numbers of tokens, which it
-- adds and subtracts exactly below 2 ^ 53; the counters of the Redis server are unbounded, where the
-- server's have 64 bits and its scripts compute with doubles.
--
-- Outside code is a parameter: the hash of a request body, the random tokens, the Redis server,
-- the environment. A column that only the database fills in and no modelled code reads has no
-- field, and foreign keys are not modelled; a statement that they refuse is one of the failures of
-- a session.
--
-- Not modelled: the other HTTP routes of src/eiraos/api, the application's start
-- (src/eiraos/main.py), the workers, the adapters of the providers, the middleware, the logging and
-- the client, which move data between libraries, and the retrieval, which stands beside the parts
-- above. Of the chat route the heartbeat that renews the lease is left out.
pub mod Prelude
pub mod Http
pub mod Idempotency
pub mod Budget
pub mod Conversation
pub mod Governance
pub mod Chat
pub mod Agent
pub mod Completion
pub mod Pricing
pub mod Context
pub mod Memory
