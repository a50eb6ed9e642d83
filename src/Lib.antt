-- ===== src/Lib.antt =====
-- h2database-rust: the storage engine, the keys of its indexes, and its quorums.
--
-- h2database-rust is a database in the manner of H2. Its storage engine, crates/h2-mvstore, keeps
-- named maps from bytes to bytes. A map is a copy-on-write B-tree with a journal of the changes since
-- the last checkpoint. On top of the maps stand transactions: a map holds for each key a serialized
-- versioned value, the history of committed versions and at most one uncommitted write. A
-- transaction reads at the version at which it began, its writes wait for each other by a lock
-- manager that refuses a wait that would close a cycle, and a commit goes through the write-ahead
-- log before it reaches the maps. A vacuum removes the versions that no active transaction can read.
-- Beside it, crates/h2 can send the log to a fleet of storage nodes, which commits by quorum. A pool of
-- page frames over a disk manages slotted pages. The SQL executor, crates/h2-sql, keeps each
-- secondary index as a map whose keys are the values of a row written so that bytes compare as
-- values do; a comparison becomes a range scan of that map.
--
-- The modules and the code that they are about:
--   Prelude: shared names, tests on numbers, lists, and `HashMap` as an association list.
--   Bytes: byte strings and the order of keys; Utf8 is the test of `String::from_utf8`, Words are the
--     machine integers with their bytes, most significant first.
--   Tree: crates/h2-mvstore/src/page.rs and tree.rs. Tree/Entries is the specification, a list of
--     entries with ascending keys; Shape, Lookup, Split, Put and Remove are about pages, Model about
--     whole trees, and Scan (All, Keep, Range, Prefix) about the scans.
--   Map: crates/h2-mvstore/src/map.rs. Changes is the table of a journal, Journal its replay,
--     Cache the cache of the serialized root.
--   Wal: crates/h2-mvstore/src/wal.rs. Recovery is about `read_all_records`.
--   BufferPool: crates/h2-mvstore/src/buffer_pool. Clock is clock_replacer.rs, SlottedPage is
--     slotted_page.rs (Layout is the shape of a well-formed page, then one module per operation),
--     Disk is disk_manager.rs, and Manager is mod.rs (View is the invariant and what the pool shows
--     of each page, Install and Touch change one frame, Victim is the frame that the clock chooses,
--     Load the page that is read into it; then one module per operation).
--   Sql: Value and Compare are crates/h2-types/src/value.rs (Compare/Keys ties its order to the keys),
--     Encoding crates/h2-sql/src/executor/encoding.rs, the keys of indexes, and Ranges the conversion
--     of bounds in crates/h2-sql/src/executor/query.rs.
--   Quorum: crates/h2/src/storage/quorum.rs, the quorums of a fleet of storage nodes; Overlap is about
--     the configuration, Acks about the loops over the answers.
--   Tx: crates/h2-mvstore/src/tx. VersionedValue and Codec are versioned_value.rs, Lock is lock.rs,
--     Engine and Vacuum are store.rs, Reads, Writes and Commit are transaction.rs, and Commit holds
--     `commit_with` of crates/h2-mvstore/src/store.rs too. Maps is the interface through which
--     transactions use maps, with its laws as fields; Maps/Trees fills it with named trees.
--   Tests: runs at concrete inputs.
--
-- The correspondence. A function of the source has the name of its method. Shared state is passed
-- and returned: `Engine` is the state of a `TransactionStore` with what it uses of its `MVStore`,
-- `Transaction` that of a transaction. What a mutex guards is one step. What other threads do
-- where a method waits or holds no lock is an argument: `Wait` for a wait on a lock, `Batch` for a
-- commit, and a list of functions for the vacuum, which holds no lock. `Faults` says which calls of
-- the log succeed. A panic, an index out of bounds, is `none` in the tree and the clock, and
-- `panics` in the pool. Error messages are left out, their kinds are `Error` and `PoolError`. Numbers
-- of the source that only count (versions, transactions, changes) are not bounded, and sums of sizes are
-- those of strings in memory; the lengths and numbers in stored bytes are bounded by their width.
--
-- Fuel and bounds. The loop of `check_cycle` has two rounds more than the graph has edges, since
-- each round but the last visits one more transaction that waits; `read_all_records` has as many
-- rounds as the file has bytes, and each record takes eight or more; `victim` has the two rounds
-- of the source; the loops that decode keys have as many rounds as there are bytes, and each round
-- takes one or more. The loop of `put` and `remove` takes one element of its list of waits for
-- each time that it is blocked.
--
-- Parameters. bincode is `Codec` and `WalCodec`: what it writes it reads back, and for versioned
-- values in its documented format, on which `read_visible_raw` relies; Tx/Codec/Bincode is such a
-- codec. crc32fast is a function to 32 bits. `External` has the types and functions of chrono,
-- rust_decimal and serde_json that keys use, with their documented bounds and inverses. The cast of a
-- bound to the type of its column is a function, and so is the comparison of arrays and of values of
-- different kinds; what the disk does is `IoFaults`.
-- A replication listener takes a commit or refuses it.
--
-- Not modelled: the time stamp of a record of the log, query metrics, failing disks outside
-- `commit_with` and the pool, checkpoints and their files, backups, replication, threads that meet
-- inside a call of the buffer pool, the parser, the planner and the executors of SQL but for index
-- keys, graphs, and the servers. `flush_all` visits the pages in the order of the list that
-- stands for the page table.
pub mod Prelude
pub mod Bytes
pub mod Tree
pub mod Map
pub mod Wal
pub mod Tx
pub mod BufferPool
pub mod Quorum
pub mod Sql
pub mod Tests
