-- ===== src/Lib.antt =====
-- A model of polymarket-watch-rust, a trading bot for prediction markets with a simulated (paper)
-- and a live mode. Paths are from the repository's root.
--
-- The program's parts. The market feed (src/market_ws.rs) turns exchange events into order books
-- (src/book.rs, src/types.rs). A strategy reads a book and proposes an intent; the risk checks
-- (src/risk.rs, with src/behavior.rs for the price pressure and src/config.rs for the limits)
-- accept or reject it. In paper mode the paper exchange (src/paper.rs) holds cash, positions and
-- orders, reserves funds for what rests, and fills orders from books and trades. In live mode
-- src/readiness.rs, src/heartbeat.rs, src/compliance.rs and src/rate_limit.rs gate what may be sent.
-- The router (src/execution.rs) asks the gates, writes the order ahead into the journal
-- (src/journal.rs), asks the gates again, calls the adapter and journals the outcome. The user feed
-- (src/user_ws.rs) reports the account's own orders and trades. After a crash src/reconcile.rs
-- compares the journal with what the exchange holds before trading is unlocked. Every amount is a
-- fixed-point number (src/fixed.rs); src/latency.rs records how long the stages take.
--
-- The files.
--   Base: integers over the native numbers with the checked operations of i128 (Int), Result and
--     the error type of src/error.rs (Outcome), tests on numbers and strings (Tests), lists,
--     BTreeMap as an association list in key order, and the print of a number.
--   Fixed: the operations of src/fixed.rs under their names; Text is FromStr and Display on code
--     points; Rounding and Text/RoundTrip are about them.
--   Types: the identifiers, enums and records of src/types.rs.
--   Book: src/book.rs; Sorted and Sizes are about level changes.
--   MarketWs: apply_market_event of src/market_ws.rs, one definition for each arm, as a function
--     from a book to a result and the book as the call leaves it; Validate holds the validate_
--     functions; Levels, FailClosed and Authority are about them.
--   Config: Settings of src/config.rs, its default, and WalletScore of src/wallet_watch.rs.
--   Behavior: src/behavior.rs; Zones is about it.
--   Risk: check_order of src/risk.rs, cut into stages that run in the order of the code; Stages
--     and Accepts are about it.
--   Paper: src/paper.rs. State has the records and the actions on an engine (a result and the
--     engine as the call leaves it, so what was written before an error stays), Amounts what is
--     computed from an engine, Validate the constructor and the journal check, Orders submission
--     and cancellation, Fills the fills, Matching the loops over books and trades, FlattenPlan and
--     Flatten the flattening. Steps, Invariant and the modules under each file are about them.
--   Journal: src/journal.rs. Journal has the records and their hashes, Reading the verification, the
--     replay and open, Writing the appends and the checkpoint, Compaction compact_paper_history.
--     Lines, Chain and Accepts are about reading; Sound, Appends, Outcome and Commits about appends;
--     Snapshot about compaction; Recovery about sequences of both.
--   Execution: check_gates and the parsers of src/execution.rs; Router has submit_checked_inner and
--     what it calls. Gates is about check_gates, Order about submit_checked_inner, Hex about hex_bytes.
--   Reconcile: src/reconcile.rs; Mappings has recover_open_order_mappings_records and the decoding of
--     a payload, Recovery is about the report.
--   Compliance: src/compliance.rs; Latch has the guard and its file. Eligible and Kept are about them.
--   UserWs: src/user_ws.rs. UserWs has the events and the cache, Messages the SDK's types, Conversion
--     their conversion, Session the loops. Frames, Backoff, Cache, Ownership and Attribution are about
--     them.
--   RateLimit, Heartbeat, Latency, Readiness: src/rate_limit.rs, src/heartbeat.rs, src/latency.rs
--     and src/readiness.rs.
--   Signal, MatchingEngine: ConservativeMaker of src/signal.rs, and src/matching_engine.rs.
--   The modules named Examples apply the theorems at concrete inputs.
--
-- Representation. A Fixed is its count of millionths, an integer; every operation checks the range
-- of i128 where the code does. A u64 is a number, with its upper bound written where the code tests
-- it; saturating subtraction is subtraction that stops at zero. The u32 counter of the heartbeat
-- wraps. Strings are compared as text; the input that an error message of FromStr repeats is left
-- out. Loops are recursion on the list they walk. Printing a number runs on fuel that is the number
-- itself, which has at least as many steps as the number has digits. The uuid crate, which names
-- the orders of a flatten, is a function parameter. A file is the list of its bytes; a function that
-- calls the file system takes the outcome of each of its calls, in the order of the code, and leaves
-- the files as those outcomes say, so that a failure can come at any call. serde_json, blake3 and
-- UTF-8 decoding are the functions of a Codec, about which only IsFaithful is assumed: what is printed
-- is one line that is read back. A checkpoint is what reading and parsing it gives. The router takes
-- the readings of the clock and of the account revision, the uuid, the text of the write-ahead payload
-- and the adapter as inputs, and lists the calls of the adapter. A session of the user feed takes what
-- each turn of its select sees, and the feed what it reads of the shutdown token; the decimals of the
-- SDK are their texts.
--
-- Not modelled: tasks, sockets, HTTP, locks, paths and permissions of files, JSON and TOML, the
-- graphical interface, and the modules that are mostly these (src/engine.rs, src/wallet_watch.rs,
-- src/external_feeds.rs, src/discovery.rs, src/secrets.rs, src/runtime.rs, src/state.rs, src/gui.rs,
-- src/main.rs); the signed HTTP client and the account snapshots of src/execution.rs, the text of the
-- write-ahead payload, the websocket task of src/market_ws.rs, and Settings::validate.

pub mod Base
pub mod Fixed
pub mod Types
pub mod Book
pub mod MarketWs
pub mod Config
pub mod Behavior
pub mod Risk
pub mod Paper
pub mod Journal
pub mod UserWs
pub mod Execution
pub mod Compliance
pub mod Reconcile
pub mod MatchingEngine
pub mod Signal
pub mod Latency
pub mod Readiness
pub mod Heartbeat
pub mod RateLimit
