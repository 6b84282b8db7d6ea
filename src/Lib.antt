-- ===== src/Lib.antt =====
-- Context Layer records what happens on a personal computer as an append-only log of events, projects
-- the log into tables, and answers reads under a grant.
--
-- The parts and their files:
--   Base           numbers, lists, texts (Unicode code points), results and integers.
--   Contracts      crates/contracts/src/lib.rs: events of both envelope versions, and the local API.
--   Core           crates/core/src: retrieval.rs is Timeline, Grants, Visible and Retrieval,
--                  content_access.rs is ContentAccess, lib.rs is Projection and Engine.
--                  Serde holds what is used of serde_json, as a parameter.
--   Storage        crates/storage-sqlite/src: Tables are the tables and plain queries of lib.rs, SortKey
--                  is format_sort_key, Apply is apply_command, Append are append_with_projection and
--                  append_raw_v2 with the checkpoints, Match is find_download_match, Timeline is
--                  retrieval.rs with the lookups, Migrate is migrate and backfill_observed_keys.
--   Vault          crates/content-vault/src/lib.rs: ContentVault over a file system that may fail.
--   LocalIpc       crates/local-ipc/src/lib.rs: read_frame and write_frame.
--   Screenpipe     crates/screenpipe-adapter/src/lib.rs: the frames and the responses, Fetch is the paged
--                  search with fetch_frames_since and fetch_frame_png, Loopback is the check of the address.
--   Platform       crates/platform-windows/src: the types of changes and scans with contract_path,
--                  ChangeBuffer is parse_extended_change_buffer of watcher.rs, Clipboard is clipboard.rs,
--                  Activity is input_idle_millis of activity.rs.
--   Agent          apps/context-agent/src: Policy and ReadCapability are read_capability.rs,
--                  ContentRead is content_read.rs, Requests is handle_request of main.rs, Collector is
--                  collector.rs, Samplers is personal.rs, Captures are clipboard_capture.rs and
--                  screenpipe_capture.rs, Runtime is runtime.rs with the threads' bodies in Producers.
--   NativeHost     apps/context-native-host/src/main.rs: the messages of a browser and their checks, Request
--                  is request_from_browser, Bridge is main with its allowlist.
--   Examples       concrete inputs at which the theorems are applied.
--
-- ContextEngine calls a repository (Core.Engine.EventRepository) that Storage implements; the engine of
-- reads calls query_raw_timeline and raw_event_by_id through Core.Timeline.TimelineRepository and
-- Core.ContentAccess.RawEventLookupRepository; the agent calls the engines with the grant of a policy.
-- The native host makes a request of a browser's message, which the agent's event loop answers; the
-- loop also takes the batches of the watcher, clipboard snapshots and screen frames, and calls the
-- collector, the captures and the engine for them, one event after another.
-- State is passed explicitly: the tables are a record of lists, and a transaction whose body fails
-- gives back the tables it started from.
--
-- Bounds and fuel: a timeline query scans at most 5000 rows, in batches of at most 200, and a round that
-- goes on scans at least one, so that 5001 rounds are enough. `u64` columns stop at `i64::MAX` as in
-- SQLite. A round over a change buffer goes on by at least a header, so that one round more than its bytes
-- is enough. The paged search takes one round for every twenty items up to the offset from which the
-- service has no full page, and one more. The event loop is a recursion over the turns it takes, and the collector's over the
-- outcomes of the watcher.
--
-- Parameters: the JSON of serde, the formatting and parsing of `time`, identifiers of `uuid`, SHA-256,
-- the URL parser, HTTP responses, the file system's faults, the environment variables, the layout of
-- FILE_NOTIFY_EXTENDED_INFORMATION, and what the calls of Windows and the scan of a directory return.
--
-- Not modelled: operating system calls (named pipes, watchers, the walk of a scan, the foreground
-- window), the start of threads and the accept loop of the pipe, watch_once and the other process
-- entry points, the self checks, console output, and the browser extension.
pub mod Base
pub mod Contracts
pub mod Core
pub mod Storage
pub mod LocalIpc
pub mod Vault
pub mod Agent
pub mod NativeHost
pub mod Platform
pub mod Screenpipe
pub mod Examples
