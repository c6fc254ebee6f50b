-- ===== src/Lib.antt =====
-- uldb: a verification library for the storage, transactions and indices of the database, and for the
-- clients of its engine.
--
-- The program writes every record to a log, keeps it in a sorted memtable, flushes full memtables to
-- sorted pages, and merges the pages of three levels in the background. Clients read through the
-- memtable, a cache and the levels; transactions see snapshots, either of version chains or of a
-- persistent hash trie. Each write also goes to the indices (words, symbols, relations), which a
-- query combines by its plan. The agent store and the server's handler use the engine from outside.
--
-- Which file models which part (paths from the root of the repository):
--
--   Storage/Fnv         src/storage/fnv.rs         the FNV-1a hash
--   Storage/Wal         src/storage/wal.rs         `serialize`, `deserialize`, `WalReader::replay`
--   Storage/Wal/Writer  src/storage/wal.rs         `WalWriter` over a buffered file
--   Storage/Memtable    src/storage/memtable.rs    `Memtable`
--   Storage/Page        src/storage/page.rs        `Page` and its binary format
--   Storage/Cache       src/storage/cache.rs       `LruCache`; its `insert` is `put`
--   Storage/Compaction  src/storage/compaction.rs  `CompactionManager`
--   Index/Bloom         src/index/bloom.rs         `BloomFilter`
--   Index/Graph         src/index/graph.rs         `RelationGraph`; Traverse has its searches, Format
--                                                  its bytes
--   Index/Fuzzy         src/index/fuzzy.rs         `FuzzyMatcher`
--   Index/Bm25          src/index/bm25.rs          `Bm25Index`
--   Index/Manager       src/index/manager.rs       `IndexManager` before the first vector
--   Query/Planner       src/query/planner.rs       `QueryPlanner::plan`, `merge_rrf`
--   Query/Schema        src/query/schema.rs        `Schema`
--   Tx/Mvcc             src/tx/mvcc.rs             `MvccStore`, `Transaction`, `TxManager`
--   Tx/Hamt             src/tx/hamt.rs             `Hamt` and its nodes
--   Tx/Session          src/tx/session.rs          `TxSession`, `TxManager`
--   Namespace           src/namespace.rs           keys scoped by a namespace
--   Engine              src/engine.rs              `Engine`: single writes, flushes; and the worker of
--                                                  src/storage/bg_compaction.rs as `worker_step`
--   Engine/Lookup       src/engine.rs              `get`, `scan`
--   Engine/Open         src/engine.rs              `Engine::open`, as `open_engine`
--   Engine/Batches      src/engine.rs              `put_batch`, `bulk_ingest`
--   Engine/Snapshots    src/engine.rs              snapshots and branches
--   KeyValue            src/engine.rs              the engine as an interface with laws, for its clients;
--                                                  Engine/Client has the engine's instance of it
--   AgentStore          src/agent_store.rs         payloads and records of agents
--   Server              src/server.rs              the bytes of responses; Transactions and Records have
--                                                  the methods and handlers of `UmpHandler`
--
-- Prelude, Bytes, Word and Maps hold what these share: tests on numbers, byte strings with their
-- order and big-endian fields, single bits of a word, and maps as association lists (`HashMap` in any
-- order, `BTreeMap` sorted). A child module named for a property proves it; Tests runs the theorems
-- and definitions at concrete inputs.
--
-- State is passed explicitly: a method with `&mut self` takes the record of its fields and returns
-- the new one. An operation that can panic returns `none` there, except in the page parser, which
-- tells a panic from an error. The trie and pages are values, so sharing by `Arc` is not visible.
--
-- Bounds: numbers are unbounded where the program counts operations, and cut to their width where it
-- casts or wraps. The replay runs on one round of fuel for each byte and one more, and so does the
-- loop that parses a page; each round takes ten bytes or more. Splitting two
-- leaves of the trie runs on the levels that are left, thirteen in all, after which the program
-- panics. A breadth-first search has a round for each node and one more, as no node is queued twice; a
-- depth-first search a round for each edge and two more, as each edge is pushed once at most.
--
-- Parameters: the CRC of `crc32fast`, the two directions of `flate2`, the two floating-point formulas
-- of the Bloom filter, and whether the operating system accepts a write; for the scores of the
-- indices a type with the floating-point operations that the code uses; for the agent store the
-- records and payloads of `ulmen_core`; for the server the operation codes of `ulmp` and the texts of
-- the error messages; and for loading a graph whether the allocator has room for the numbers of keys
-- and edges that the file claims.
--
-- The clients of the engine take it as an interface, with the number of its flushes. Its laws say what
-- a write means for the reads if it succeeds and does not flush; they say nothing about a write that
-- flushes, as the flushed keys cannot be read until the worker has taken their page.
--
-- The background worker is a queue of pages in the engine's state: `worker_step` takes the next one, and
-- any number of other steps can come before it. A commit of a transaction holds no lock throughout. In
-- Tx/Mvcc/Interleaved it takes what other threads do before each of its calls of the store as an
-- argument, and `alone` is the case where they do nothing; the handler's `commit_tx` takes what they do
-- before its check and between the check and its writes.
--
-- Not modelled: the page files, `branch_diff` and `close` of the engine, the vector index, whose
-- distances and levels are floating-point and random, `search_records` of the agent store, the
-- handlers of the server for queries, snapshots, branches, namespaces, watches and administration, its
-- sockets, and the Python bindings.
pub mod Prelude
pub mod Bytes
pub mod Maps
pub mod Word
pub mod Storage
pub mod Query
pub mod KeyValue
pub mod AgentStore
pub mod Server
pub mod Index
pub mod Tx
pub mod Tests
pub mod Namespace
pub mod Engine
