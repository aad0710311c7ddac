-- ===== src/Lib.antt =====
-- nervous-bus: adapters that watch a bus of events on Redis and act on what they see.
--
-- The parts modelled here and the files that model them:
--
-- - adapters/dlq/dlq.py, the dead-letter daemon: `Dlq`. Rows (the table of letters, a list with one
--   entry for each id), Insert (`insert_dead_letter`, `archive_quarantined`), Retry (the round of
--   `retry_worker` and the marks it leaves), Counts (the queries), Sink (the daily JSONL files by
--   their sizes), Summary (`SummaryTracker` and its rollups), Consumer (`process_entry` and the two
--   loops of the consumer group). Budget, Rounds, Inserted and Delivery hold proofs. The letters come
--   from the streams that the mirror writes.
-- - adapters/pattern-watchdog/watchdog.py: `Watchdog`. Lag (`_check_nbus_all_lag`) and Growth
--   (`_check_dead_letter_growth`), each a machine with a kept hash and markers (Marker).
-- - adapters/system-pressure/watch.py: `Pressure`. Level (the levels of disks, directories and
--   units) and Poll (the loop of `main` over the findings);
--   Reminders holds proofs.
-- - adapters/signal-router: `Router`. Calibration (calibration.py) and Route (router.py), with the
--   proofs on routing in Filing. Route loads and saves the calibration that feedback changes.
-- - adapters/redis-mirror/mirror.py: `Mirror`. Redis (the server, a parameter with the documented
--   laws of its commands), Publish (`ATOMIC_PUBLISH_LUA` and `atomic_publish`), Schemas
--   (`SchemaRegistry`; `json` and `jsonschema` are a parameter), Event (`mirror_event`), Tail
--   (`TailReader`); Window, Accounts and Follow hold proofs.
-- - adapters/ci-watch/watch.py: `CiWatch`. Runs (`group_runs`, `compute_workflow_state`), Pass
--   (`run_pipeline_pass`) and Dependabot (`run_dependabot_pass`, `build_dependabot_signal`); Quiet,
--   Beads, Advisories and Backlog hold proofs.
-- - tools/maintenance-train/selector.py: `Train`. Select (`classify`, `rank_key`, `select`) and Picked,
--   which holds proofs. The beads that the watches file are among those it selects from.
-- - adapters/everos-watch/everos_watch.py: `Everos`. Files (`classify`, `_event`) and Watcher
--   (`Watcher.poll`); Delivery holds proofs.
-- - adapters/reflex-recorder: `Recorder`. Keys and Segment (segment.py: run keys, worktree paths, the
--   `Segmenter` with its open runs), Enrich (enrich.py: branches, beads, token counts) and Skills
--   (skill_usage.py: skills and dispatches); Paths, Chain, Accounts, Closing and Features hold proofs.
-- - adapters/argshape: `Argshape`. Fixes (store.py and core.py: the modes, the table of fixes,
--   `best_fix`), Outcomes (core.py: what becomes of corrections, the breaker), Plan (core.py: the part
--   of `plan` on options and subcommands), Edits (the end of `plan`) and Shapes (sqlshape.py: the
--   shapes of literals and their conversion); Choice, Demotion, Golden, Breaker, Digits and Lossless hold
--   proofs.
-- - adapters/staleness/monitor.py: `Staleness`. Cadence (`evaluate_stream`) and Run (`run` with its
--   baselines); Ranks, Threshold and Cooldown hold proofs.
-- - adapters/pattern-bundler: `Bundler`. Window (window.py: an open window; `_channel_triggers`) and Loop
--   (bundler.py: the loop of `main`, with the entries of the two streams and the closing of windows);
--   Accounts and Balance hold proofs.
-- - `Prelude` has what they share: tests on numbers, Python's lists, dicts and strings.
--
-- Numbers are natural: times in seconds, rates and confidences scaled as each file says. Texts whose
-- case or white space matters are read as ASCII. Database and file operations are atomic steps on an
-- explicit state, and what a step meets outside (a reply, a clock, whether a file can be written) is
-- an argument, so a theorem holds for every such behaviour.
--
-- Fuel: only the search for a JSONL file takes fuel; it finds a file as soon as the files of the day
-- end below the fuel, and a day's files always end. The retry rounds are a list of any length.
--
-- Not modelled: the calls of SQLite, Redis, gh, bd and systemctl themselves, threads and locks, HTTP
-- handlers, configuration files, printing and reports; the lint pass of ci-watch, the pending-entry
-- check of the watchdog, the line parser, the SQL part and the learning of argshape, the statistics,
-- baselines and fingerprints of bundles, the store and the analyses of the recorder; and the adapters,
-- tools and SDKs that are glue around those calls.
pub mod Prelude
pub mod Dlq
pub mod Watchdog
pub mod Pressure
pub mod Router
pub mod Mirror
pub mod CiWatch
pub mod Train
pub mod Everos
pub mod Recorder
pub mod Argshape
pub mod Staleness
pub mod Bundler
