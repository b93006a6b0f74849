-- ===== src/Lib.antt =====
-- The reconciliation engine compares the daily bars of several market data providers, opens exceptions for what
-- differs, and stores each run once; a realtime part receives sequenced events over TCP. The modules:
--
-- Common: texts as lists of code points, association lists for dictionaries, results for calls that may raise,
--   integers, and `Float`, the interface of the float64 numbers that are not missing.
-- Transport: reconciliation_engine/realtime/network_transport.py. Sequence has `SequenceTracker`; Framing has the framed
--   reads of `TCPTransport` (`_read_newline_frame`, `_fill`, `_read_length_prefixed_frame`); Tcp has its `__init__`,
--   `connect`, `receive` and `close`. Events has `MarketEvent`, Monitor has `monitor_transport`, which joins the tracker and the
--   journal of Storage. A connection is the list of what its calls of `recv` return, and the network is the
--   list of what successive dials do. `receive` takes as many rounds as the source: reconnect_attempts + 1.
-- Reconciliation: reconciliation_engine/reconciliation. Validation has `validate_equity_bars`, Equities has
--   `reconcile_equity_bars` and below it, in Pairs, `reconcile_equity_sources`; Exceptions has `create_equity_exceptions`; Options
--   has `reconcile_option_chain` and `reconcile_option_sources`, Futures has `reconcile_futures_bars`.
--   `pd.merge` with how="outer" is the interface `OuterMerge`, whose law is what a full outer join of frames with
--   distinct keys holds for a key. The results of Equities are the rows that Exceptions and Storage take.
-- Storage: reconciliation_engine/storage/duckdb.py. Tables has INSERT and UPDATE of a table with a primary key; Runs has
--   `persist_equity_run`, with a database that may refuse any statement; Manifest has `register_work_partitions`,
--   `mark_partition_running`, `finish_work_partition` and the loops of `ingest_equity_partitions` that call them; Journal has
--   `persist_realtime_event` and the columns of its table, of which the database converts what a parameter says.
--   DataLake has the archives of reconciliation_engine/storage/data_lake.py, as files under the parts of their paths.
-- Scaling: Partitions has `build_work_partitions` of reconciliation_engine/scaling/partitions.py, Execution `_execute_partition_inner` of reconciliation_engine/scaling/equity_ingestion.py, with the archives of
--   reconciliation_engine/storage/partitioned_data_lake.py and `normalize_equity_dataframe` of storage/data_lake.py. What a date is when
--   it is read from a file is a parameter; a file that is there is whole and can be read. A frame that it returns is what the comparison of
--   Reconciliation takes.
-- Alerts: `Alert` and `AlertDispatcher` of reconciliation_engine/alerts.py, call by call, with the clock's readings given.
--
-- Ingestion: Massive has the limiter and the client of reconciliation_engine/ingestion/massive.py. `attempts` takes the rounds of the
--   source, max_retries + 1; `iter_results` has the number of pages as its fuel, since the server decides how many there are.
-- Batch: Symbols has the configuration of reconciliation_engine/batch.py, Notifications `send_run_notification` of
--   reconciliation_engine/notifications.py; Attempt has the body of `try` in `main`, which composes the ingestion (an interface), the data lake,
--   the comparison, the exceptions and the storage of the run (the tables that the ingestion writes to the same file belong to its
--   interface), Daily has `main` around it, and Replay has `replay_archived_run`.
--
-- Every loop is by recursion on its list or on its rounds, so that no fuel is needed; the digits of a number
-- are the exception, whose fuel is more than the number (`digits_fuel` in Common/Decimal). Numbers are natural numbers without a
-- bound, as Python's integers have none; times are numbers of a clock.
--
-- Not modelled: the JSON parser, multicast, publishers and subscribers, the anomaly scorer, the rules
-- that raise alerts, the provider adapters, retention, the API and the dashboard; logs and telemetry,
-- which change no state of the program; and rounding, beyond the laws of `Float`.
pub mod Common
pub mod Transport
pub mod Reconciliation
pub mod Storage
pub mod Scaling
pub mod Alerts
pub mod Ingestion
pub mod Batch
