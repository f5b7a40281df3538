-- ===== src/Lib.antt =====
-- The core of mctrader-data, a collector and store of market data: how ticks become bars, how lines
-- reach the write-ahead log, how segments reach the object store and leave the local disk, when ingest
-- is refused, what the readers' caches hold, how an order book is rebuilt, and how the rows of several
-- nodes are made one.
--
--   Prelude            Boolean tests, lists, dictionaries, sorted(), whole numbers with a sign, and texts
--                      with their prefixes, suffixes and split().
--   Aggregation        src/mctrader_data/aggregation/core.py. Ticks, one at a time, become volume, tick,
--                      dollar and time bars, with one state for each symbol.
--   Wal                src/mctrader_data/wal/ingester.py, and the segment index of wal/segment.py.
--                      Lines are appended to the segment of their time, synced and sealed.
--   SegmentNames       src/mctrader_data/wal/segment.py. The names of a segment's three states.
--   RetryQueue         src/mctrader_data/nas_storage/retry_queue.py. Segments that the object store did
--                      not take wait here, within limits, until a drain uploads them.
--   Uploader           src/mctrader_data/nas_storage/nas_uploader.py. put, put_streaming, the copy and
--                      the deletion of an object, and what is given to the retry queue.
--   Promotion          src/mctrader_data/compactor/promotion.py. A local file is deleted once the object
--                      store has it.
--   DualWriter         src/mctrader_data/nas_storage/dual_writer.py. A file is replaced locally, put in
--                      the store by the Uploader, and its source goes by the Promotion.
--   NasKey             src/mctrader_data/nas_storage/nas_key.py. The keys of the object store.
--   CompactionBarrier  src/mctrader_data/nas_storage/compaction_barrier.py. New compactions are held
--                      back while those in flight end.
--   Rekey              src/mctrader_data/nas_migration/rekey.py. An object is copied to its new key by
--                      the Uploader, checked, and its old key deleted.
--   GcRunner           src/mctrader_data/nas_migration/gc_runner.py. Local files are deleted behind
--                      three locks, and each deletion is logged.
--   CutoverVerifier    src/mctrader_data/nas_migration/cutover_verifier.py. Whether the store has what was
--                      local before a cutover, which is the evidence for GcRunner's first lock.
--   IngestBlocker      src/mctrader_data/ingest_blocker.py, and the ratios of capacity_probe.py. The
--                      state machine that refuses ingest when a disk is full.
--   EndpointRouter     src/mctrader_data/io/endpoint_router.py. The switch of the readers from one
--                      object store to another, and back.
--   DrMode             src/mctrader_data/io/dr_mode.py. The circuit breaker of the readers.
--   LruCache           src/mctrader_data/compactor/reader_cache.py, LRUReaderCache.
--   ReaderCache        src/mctrader_data/io/reader_cache.py, ReaderCache with its time to live.
--   OrderbookReplay    src/mctrader_data/orderbook_replay.py. The book at a time, from a snapshot and
--                      the deltas after it.
--   Dedup              src/mctrader_data/dedup.py. One row for each key, and quarantine for mismatches.
--
-- Each module holds the definitions, named as the functions and methods they model, and its children
-- hold the theorems, by what they prove, and the tests. State that the code keeps in `self` is a record
-- that an operation takes and gives back; an exception is a constructor of the result. A lock is not
-- modelled: an operation runs as a whole. The S3 client is a parameter, a record of its operations on
-- a state of any type, with what is relied on of it as laws; Uploader/Bucket.antt has a bucket for the
-- tests. The digest, the clocks and the file system's failures are parameters too.
--
-- Numbers are the native whole numbers, with a sign where the code meets negative ones: the quantities of
-- order books, the level of a book event, the count of a state file. A Decimal of the aggregators is a parameter type with an order;
-- a ratio of the ingest blocker is a whole number of a small unit in place of a float; a time is a whole
-- number of micro- or milliseconds, or of the seconds that the code reads. Nothing overflows in Python,
-- so no width is modelled. The loops are over lists, but for two. The one over HEAD requests runs for
-- the attempts that are left, two at first, as the code counts them. The polling loop of the compaction
-- barrier runs on fuel, one more than the units of its timeout, which is enough when the clock goes on
-- between two polls, as they sleep. The eviction loops are over the entries that are left.
--
-- Not modelled: the command line, the HTTP and stream services, the collector's network code, the
-- Parquet, DuckDB and Polars layers, and the metrics, which are input and output around these parts;
-- and deduplicate_ticks_v1_1, the compactor's tiers, the harnesses of the migration and the retention
-- policies, which are independent of the parts above.
pub mod Prelude
pub mod Aggregation
pub mod Wal
pub mod RetryQueue
pub mod CompactionBarrier
pub mod CutoverVerifier
pub mod Dedup
pub mod DrMode
pub mod DualWriter
pub mod EndpointRouter
pub mod GcRunner
pub mod IngestBlocker
pub mod LruCache
pub mod NasKey
pub mod OrderbookReplay
pub mod Promotion
pub mod ReaderCache
pub mod Rekey
pub mod SegmentNames
pub mod Uploader
