-- ===== src/Lib.antt =====
-- Verification library for RAGuardian, a retrieval-augmented chat service: the parts of its Python
-- backend that keep state under a lock and decide who may do what, and when.
--
-- The parts and how they interact. A web request passes the rate limiter
-- (app/utils/rate_limiter.py). Long work on a knowledge base (a rebuild of its index, a
-- synchronisation of a data source, its deletion) is admitted as a background job
-- (app/utils/job_store.py). A chat turn stages its result in the store of pending turns until the
-- worker that holds its lease commits it (app/utils/pending_turn_store.py) to the history of the
-- workspace (app/utils/conversation_history_store.py). Answers are cached
-- (app/utils/cache.py); the catalog of the knowledge bases is a JSON file
-- (app/utils/knowledge_base_store.py), and threads that use or rebuild an index exclude each other
-- by a read/write lock (app/utils/index_lock.py). Accounts and API keys (app/utils/user_store.py)
-- decide who may call, and with which knowledge bases. Lists are shown in pages (app/utils/pagination.py).
--
-- Which file models which part:
-- Prelude: Boolean tests, equality as an interface, lists and options over native numbers.
-- Dict: a Python `dict`, an association list in the order of insertion; Dict/Laws and Dict/Sums hold
--   the lemmas that all parts share.
-- Clock: times in whole microseconds. `time.time()` is an argument of the operations that read it.
-- RateLimit: `RateLimiter`, its in-memory backend (`is_allowed_memory` is `_is_allowed_memory`).
-- Pending: `PendingTurnResultStore`; each operation has the name of its method, `Pending/Keys` the
--   keys. The JSON codec is a parameter; where a result depends on it, it reads back what it writes.
-- Job: the fields of a job and the functions on it; Jobs: `MemoryJobStore`, its four dicts as the
--   fields of `Store`, `Jobs/Changes` its operations on stored jobs, `Jobs/Steps` the calls that the
--   application makes as a step relation. SHA-256 is the parameter `digest`, on which nothing
--   is assumed.
-- History: `ConversationHistoryStore` of app/utils/conversation_history_store.py, the durable history
--   of a workspace in SQLite. `Db` has its tables, a method is a function from tables to a result,
--   and a result that is an error leaves the tables as they were (`History/Steps`, `after`).
--   `History/Turns` has the life of a turn up to its lease, `History/Turns/Held` what happens under
--   it, `History/Commit` the commit, `History/Cleanup` the retention, `History/Edits` what is left. The constraints of the schema are
--   tests that raise, its cascades are written out. What `json.dumps` gives, the text with its white
--   space collapsed, the clock, ids and tokens are arguments. `History/Effects` cuts every method
--   into steps, by which the invariants are proved.
-- Users: `UserStore` of app/utils/user_store.py, the accounts and the API keys by which requests are
--   let in (app/db/schema.sql); `Accounts` has its two tables, `Users/Keys` the calls on keys,
--   `Users/Keys/Removal` those that give or take a knowledge base. Calls that run a function of the
--   caller between two transactions are cut there (`mark_deleting` and `end_deletion`, `remove_phase`
--   and `restore`), and `Users/Steps` lets other calls run in between. A call that begins with BEGIN
--   IMMEDIATE, or is one statement, is one step. The others read outside a transaction and write later:
--   `update_user`, the calls on the name, the scopes, the knowledge bases, the value and the state of a
--   key, its deletion, and `delete_user` are in `Users/Steps` a read in one state and a write in a later
--   one; the function of the whole call (`update_user`, `change_key`) is what they do undisturbed.
-- Lru: `CacheEntry` and `SimpleLRUCache`. Pagination: `paginate_items`.
--
-- RwLock: `_ThreadReadWriteLock`; a function is the code between two waits on its condition
--   (`acquire_write` up to the loop, `take_write` its test and what follows), and `RwLock/Steps` the
--   interleavings of threads, with a record beside the lock of the acquisitions that have returned.
-- KnowledgeBases: `KnowledgeBaseStore` over the content of its file, `KnowledgeBases/Catalog` the
--   validation and the JSON. `strip`, `casefold` and the parser of times are parameters; where a
--   result depends on it, stripping a stripped text has no effect.
--
-- Locks: each operation of the stores runs under one lock, or in one transaction of SQLite, but for those
-- named under Users, so that a run of the program is a sequence of whole operations, or of their reads
-- and writes; the theorems on runs quantify over all sequences. No fuel is used:
-- every loop of the modelled code is a recursion on a list.
--
-- Not modelled: the Redis backends of the same classes, which run against a server; logging; the
-- routes, the retrieval engine, ingestion and the providers, which are calls of libraries and
-- services; the outbox of artifact deletions of the history, and the stores of settings
-- and prompts.
pub mod Clock
pub mod Dict
pub mod History
pub mod Job
pub mod Jobs
pub mod KnowledgeBases
pub mod Lru
pub mod Pagination
pub mod Pending
pub mod Prelude
pub mod RateLimit
pub mod RwLock
pub mod Users
