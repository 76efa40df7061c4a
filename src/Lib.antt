-- ===== src/Lib.antt =====
-- A verification library for the package inference_core: the streaming router for reasoning tags, the
-- accounts with their tokens and refresh sessions, the authentication of requests, the parameters of
-- model calls, their configuration and their costs, batch jobs, the redaction of telemetry, the
-- in-memory vector store, the middleware around an agent's model, the agent instances of the users, and
-- the encryption of texts.
--
-- The parts, and how they correspond to the code:
--   ThinkTags      inference_core/llm/think_tags.py. The record Router is ThinkTagStreamRouter; feed,
--                  flush and the helpers of each state are functions on it. Outcome splits the whole
--                  text at once, which is what the fragments are compared with.
--   Security       inference_core/core/security.py. bcrypt, python-jose, secrets and uuid are the fields
--                  of the record Libs; Lawful says what is relied on of them: a token that was encoded
--                  decodes with the same key while it is timely, and a hash verifies.
--   Server         the World that a request works on: the rows of the users table
--                  (inference_core/database/sql/models/user.py), the state of Redis, the time, the count
--                  of random draws, and the emails handed over; and the monad of the handlers, in which
--                  what was written before an exception stays written.
--   Sessions       inference_core/services/refresh_session_store.py over the record Redis, the commands
--                  that it sends, any of which can raise. Sessions.Laws.Lawful says what a Redis does.
--   Users          inference_core/services/auth_service.py. A commit refuses rows that share an id, an
--                  email or a username (Users.Unique.Distinct).
--   AuthApi        inference_core/api/v1/routes/auth.py, which calls the three parts above.
--   Access         inference_core/core/dependecies.py and core/public_user.py: who calls an endpoint.
--   ParamPolicy    inference_core/llm/param_policy.py: the shipped policies, overrides, and the loop that
--                  renames, drops and forwards parameters.
--   Batches        inference_core/services/batch_service.py and database/sql/models/batch.py: jobs, items, and
--                  the counts that a job keeps of its items; updates and deletion of jobs; events
--                  of a change of status. Other events and queries are left out.
--   Values         Python's values as far as JSON has them, for payloads and metadata.
--   Scrubbing      inference_core/observability/sentry_scrubbing.py: redact and its helpers, the detectors of a
--                  product, and the hooks for events and breadcrumbs. A step of scrub_event that raises
--                  gives none, and the minimal event is sent.
--   VectorStore    inference_core/vectorstores/base.py, the class InMemoryVectorStoreProvider: the record Store is
--                  its two dicts. Histories gives the map from names to documents that it implements.
--   Middleware     inference_core/agents/middleware: Fallback and FallbackNames are model_fallback.py,
--                  RepeatedErrors is repeated_tool_error_guard.py, and ToolSwitch is
--                  tool_model_switch.py.
--   Instances      inference_core/services/user_agent_instance_service.py: the table of agent instances as the
--                  list of its rows. Rows says how a call may change it. A call that raises commits
--                  nothing.
--   Ciphers        inference_core/services/content_cipher.py: the key rings, and the texts and fields that are
--                  encrypted. Ciphers.Roundtrip.Lawful says what is relied on of Fernet.
--   Settings       inference_core/services/llm_config_service.py and database/sql/models/llm_config.py: Admins and
--                  Users are the rows of the two kinds of caller, Resolving and ModelParams what they
--                  come to, and Calls runs the service with its cache. Redis is two entries that expire.
--   Usage          inference_core/llm/usage_logging.py: Costs is PricingCalculator over floats as a parameter,
--                  Snapshots the part of finalize that finds or creates a snapshot, as the steps of workers.
--   Tests          each theorem at a concrete input, with a concrete Libs and Redis (Tests.Fixture).
--
-- A text of the router and a password is the list of its code points; other texts are strings. Times
-- are whole seconds. No definition runs on fuel: every loop is structural recursion.
--
-- Not modelled: the setting of cookie attributes, response timestamps, logging, and the rendering of
-- emails; the validation of request schemas; reading the policy overrides from YAML; and the remaining
-- services of the package, which are input and output, or glue around LangChain, LangGraph, Celery and
-- Qdrant. Requests are atomic except where a theorem takes a handler apart (AuthApi.Replay), and
-- calls of UsageSession.finalize, which are the steps of Usage.Snapshots.
pub mod Prelude
pub mod Values
pub mod ThinkTags
pub mod Security
pub mod Server
pub mod Sessions
pub mod Settings
pub mod Usage
pub mod Users
pub mod AuthApi
pub mod ParamPolicy
pub mod Access
pub mod Batches
pub mod Scrubbing
pub mod VectorStore
pub mod Middleware
pub mod Instances
pub mod Ciphers
pub mod Tests
