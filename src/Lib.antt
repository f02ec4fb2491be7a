-- ===== src/Lib.antt =====
-- sisyphus: a verification library for the Go toolkit in this repository.
--
-- Parts and files. Each module below models the Go file that its opening comment names.
-- Prelude: shared names, Boolean tests on natural numbers, lists, signed numbers; Prelude/Runes has
--   what the packages use of Go's strings and unicode.
-- Fault: the error values that the packages tell apart, and (value, error) results.
-- Engine: database/sql and Handle.Do as the store packages see them. A statement is a function on
--   the tables; which calls fail is a list of outcomes. Engine/Atomic has the rules for transactions,
--   Engine/Triples those for a chain of calls that may fail.
-- Handle (internal/duckdb/handle.go): Do is `do_enter`, and `do_resume` after yieldLocked; onIdle is
--   `on_idle`, Close is `close`; the map of lock files is `Locks`. Handle/Process runs any number of
--   handles of one process in any interleaving.
-- Kv (kv/kv.go): Get, Put, Delete, List, Sweep, Clear, Namespaces, Stats as `get`, `put`, ... over a
--   list of rows. Kv/Table says what the rows mean, the other children prove.
-- Stream (stream/stream.go, stream/persist.go, stream/kvscope.go, stream/watermark.go): the interface
--   KV is `KvOps` with the laws `KvLaws`, which Stream/KvStore fills from Kv; Cursor, ScopedKV,
--   Watermark and Deduper are its clients. Stream/Polling has Poll, PollAdaptive and Source.Run
--   (stream/source.go) as `poll`, `poll_adaptive` and `run_source`, over a list of rounds;
--   Stream/Subject (stream/subject.go) has the goroutine of a Subject as `step`.
-- Schedule (schedule/schedule.go): Run is `run` over a list of ticks, its loop body `visit`.
-- Mode (mode/mode.go): Gate is `gate`.
-- Config (config/config.go): Config/Schema has envNode with `resolve`, Config/Overrides setEnvPath and
--   loadEnvOverrides; the other children prove.
-- ConfigDb (configdb/configdb.go, configdb/revision.go): Import is `import_doc`; Hash, FormatInt and
--   TrimSpace stand on an argument `lib`. ConfigStore (manager.go): Plan, Apply, Effective.
-- Journal (journal/journal.go): StartRun, FinishRun, Add and Delete; Journal/Retention has Prune and
--   Retain, Journal/Queries what reads; Cascade, Owners and Evictions prove.
-- Backup (backup/backup.go): Archive is `archive`, extract is `extract`, over a file tree whose calls
--   may fail. Backup/Swap is the swap of a restore with its rollback, Backup/Restore is Restore.
-- Auth (auth/device.go): DeviceToken is `device_token`, its loop `poll_loop`.
-- Tray (tray/state.go): the states and their icons.
-- Redact (redact/redact.go): Document, walk, Line and IsSecretKey, over texts as lists of runes.
-- Crypt (internal/crypt/crypt.go), Secret (secret/secret.go, secret/keyring.go) and Sealed
--   (sealed/sealed.go): keys, where they are kept, and the store that seals what it writes with them.
-- Examples: runs on concrete inputs.
--
-- How they interact. Kv, ConfigDb and Journal run their statements through `with_db`, the view
-- that a client has of Handle.Do; ConfigStore calls ConfigDb; Deduper, Cursor and Watermark reach Kv
-- through the interface only; Source filters what Poll sends through a Deduper. Sealed takes its key
-- from Secret, seals with Crypt and keeps its rows in Kv.
--
-- Bounds. Run recurs on the list of its ticks, and scheduleBackoff on the failures that are left; no
-- fuel is used there. insertRecords recurs on as many turns as there are records, which is enough:
-- each turn takes one at least. The loop of DeviceToken recurs on the polls that are left of maxPolls,
-- `resolve` on the schema, and Poll on the rounds that are looked at. Times, durations and counters
-- are natural numbers; an int64 doubling, the durations of DeviceToken and the uint64 generation of a
-- Handle keep their wrap-around. The clock is an argument of each operation.
--
-- Not modelled. The database engine, the file system and HTTP, which enter as outcomes of calls;
-- waiting for a file lock; the texts of errors; FanIn, Run and Pump of stream, which pass on what Go's
-- channels hand over; Query of journal, which passes any SQL on; the ciphers, codecs and unicode tables, which
-- are arguments; reflection, the parsers and the reading of files in config; the packages that only
-- call tools or the operating system.
mod Prelude
pub mod Fault
pub mod Engine
pub mod Kv
pub mod Mode
pub mod Schedule
pub mod Stream
pub mod Handle
pub mod Config
pub mod ConfigDb
pub mod ConfigStore
pub mod Journal
pub mod Backup
pub mod Auth
pub mod Tray
pub mod Redact
pub mod Crypt
pub mod Secret
pub mod Sealed
mod Examples
