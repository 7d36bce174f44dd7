-- ===== src/Lib.antt =====
-- wechatcopilot: a control plane that keeps accounts of two chat clients, logs them in through a page
-- of its own, and sends messages only after a preparation and a confirmation.
--
-- The parts and their files:
-- * Account models internal/account/store.go: the registry of accounts, its file and its directories.
--   Registry has the data and Open, Update the calls Activate, Deactivate and UpdateStatus, Deletion the
--   calls BeginDelete, RecordDeleteFailure and FinalizeDelete, Add the call Add. Calls puts them together
--   as one step over what the system answers.
-- * Journal models the table send_results of internal/index/store.go and the calls on it. A statement
--   of SQL is read as SQL defines it; an argument says whether the engine carries it out.
-- * Send models the send transactions: Transactions and Staging internal/service/transactions.go, Commit
--   the functions CommitSend, findCommittedSend and sendOutcome of internal/service/service.go, Failure
--   the errors of internal/service/driver_errors.go and internal/api/api.go, and History what happens to
--   a service in the course of time. A commit uses the registry to find its account, the journal of that
--   account, and the active driver, which is an argument. Commits do not overlap, since CommitSend holds
--   a lock from its beginning to its end.
-- * Auth models the challenges of internal/auth/manager.go: its parent module the entry and what it makes
--   of snapshots, Actions and Codes the stages of performAuthAction and submitCode, Session their
--   interleaving with all other requests, Pages the handlers of the state and of the image and the
--   replies to failed requests.
-- * Runtime models internal/runtime/manager.go: its parent module the state of the manager and
--   stopRuntime, Lifecycle the calls Activate, Deactivate, Driver and BeginDelete, Closing Restore, Status,
--   Purge and Shutdown, and all calls as one step. Every call is one step, since it holds the lock of
--   its platform from beginning to end (Driver and Status but read the slot); that calls on the two
--   platforms overlap is not modelled. What the driver and the system answer is an argument. Besides the
--   slots, the model logs which drivers run. A runtime is told from another by a serial number.
-- * Wecom models the part of internal/driver/wecom that reads a screen of the client: its parent module
--   the nodes and their geometry (companion.go, send_guard.go), Fold, Tree and Semantics the helpers of
--   driver.go on labels and nodes, Surfaces, Challenge, Risk and Login semantic_guards.go and the
--   classification of a login, Frame and Bubbles send_guard.go and the wait for the evidence of a sent
--   message, Events the pages of the journal of the companion.
-- * Control models the account operations of internal/service/service.go, which call the registry and the
--   runtime manager and give each error its HTTP status and code.
-- * Daemon models the retry of the restore in internal/daemon/server.go.
-- * Messages models AddMessages of internal/index/store.go and the tables that it writes.
-- * Driver has the values of internal/driver/driver.go that these parts exchange. Prelude has the shared
--   helpers: lists, results, maps, texts.
--
-- State is passed explicitly. The clock, random identifiers, the file system, the database engine, the
-- JSON coding and the drivers are arguments, of which the definitions use no more than what they answer.
-- Counters are natural numbers: those of an entry are bounded by its checks, or count requests within
-- ten minutes. Times are natural numbers of nanoseconds. A text is one of valid UTF-8; lengths are in
-- bytes. Every loop is structural recursion over a list, but for the search for a free account
-- identifier and the reading of the events, whose rounds are an argument, and for the ways up a tree of
-- nodes, which have the bound of the source. The bounds of a node and the durations of a retry are
-- integers of 64 bits that wrap around. The tables of the library unicode are arguments.
--
-- Not modelled: the WeChat driver, the rest of the WeCom driver, the sockets and the routes of the
-- daemon, the command line, the MCP server, the other calls of the index of messages and its ingestion, and the wording of errors.
pub mod Prelude
pub mod Driver
pub mod Account
pub mod Journal
pub mod Send
pub mod Auth
pub mod Runtime
pub mod Wecom
pub mod Control
pub mod Daemon
pub mod Messages
