-- ===== src/Lib.antt =====
-- moyuan_kv is a key-value store in C++ (mokv/): a log-structured merge tree with one flush thread, Raft
-- replication on top of it, and stores of records for LLM applications on the side. This library models
-- its logic and states what makes it correct.
--
-- How the parts interact. A `DB` (mokv/db.hpp) writes to a memtable; a memtable that has outgrown its
-- limit goes to a queue, from which a thread writes it to a sorted table (mokv/lsm/sst.hpp) and puts that
-- into the newest `Manifest` (mokv/lsm/manifest.hpp), which is compacted when level 0 is too large. A
-- read asks the memtable, the queue and the manifest, in this order; a table finds a key by binary search
-- over its blocks, a Bloom filter (mokv/utils/bloom_filter.hpp) and binary search in the block. A `Pod`
-- (mokv/raft/pod.hpp) keeps a `RaftLog` (mokv/raft/raft_log.hpp) in a ring buffer
-- (mokv/utils/ring_buffer_queue.hpp); a thread of the log applies the committed entries to the `DB`. The
-- LLM records (mokv/llm/store.hpp) are written as lines of escaped fields (mokv/utils/codec.hpp) under
-- keys of escaped parts.
--
-- The files:
--   Prelude            names of the library that are passed on; Boolean tests, lists, byte strings
--   Codec              Escape, EscapeKeyPart, Unescape, Split, JoinKeyParts; Codec/Decimal: ParseInteger
--   Bloom              BloomFilter: Init, Insert, Check, CalcHash with its 64-bit wrap-around
--   Lsm/Bisect         the binary search that the sources write out three times
--   Lsm/Block, Lsm/Sst DataBlockIndex::Get, IndexBlockIndex::Get, and the content of a written table
--   Lsm/Layout         the bytes of a table file: the constructors of SST, CompressedBlockBuilder, Load of
--                      SST, IndexBlockIndex and DataBlockIndex, ParseEntries, Save and Load of a filter
--   Lsm/SkipList       ConcurrentSkipList (mokv/lsm/skiplist.hpp) on a heap of nodes; Lsm/SkipList/Walk is
--                      about its loops, Links and Splice about the pointers that Put writes
--   Lsm/Level          Manifest::Level: Get, Insert, binary_size
--   Lsm/Merge          the merge loop of SizeTieredCompaction, with its priority queue
--   Lsm/Manifest       Get, InsertAndUpdate, SizeTieredCompaction, CanDoCompaction; Lsm/Manifest/File: the
--                      bytes of Save, and the constructor that loads them
--   MemTable           the interface of mokv/lsm/memtable.hpp that the database uses, with its laws;
--                      MemTable/SkipLists fills it with the skip list
--   Db                 DB: Get, Put as put_begin and put_end, Delete, Exists, and ToSSTLoop as start_flush and
--                      finish_flush; Db/Ids: the ids of its tables
--   Raft/Ring          RingBufferQueue: PushBack, PopFront, PopBack, Truncate, At, RAt
--   Raft/Log           RaftLog: Put, Reset, UpdateCommit, At, and one round of its thread
--   Raft/Pod           Pod: Vote, SolveAppend, UpdateRaftLog, the election, InnerPut's loop, Follower::Run
--   Raft/Sync          the inner loop of Follower::Run
--   Raft/Clients       Pod::Get, and Pod::Put up to its wait
--   Llm, Llm/Nested    the serializers and parsers of mokv::llm::detail
--   Llm/Keyspace       Keyspace and FormatSequence
--   Llm/Stores         PromptCacheStore, RetrievalStore, RuntimeConfigStore; Llm/Stores/Conversations:
--                      ConversationStore; all over DBKVStore, with its index in Llm/Stores/Index
--   KeyIndex           the key index of DBKVStore (mokv/kvstore.cpp): its text form, listing by prefix
--   KvStore            DBKVStore: Get, Put, Delete, Batch, BatchDelete, Clear, ListEntriesByPrefix, Close,
--                      LoadKeyIndex, over what a database promises; KvStore/Databases: a database that does
--   Tests              concrete inputs
--
-- Bounds and fuel. `bisect` takes one more round than the interval is wide, `split` one more than the text
-- is long, `merge` as many as there are entries in its sources, and `format` one more than the number:
-- each round uses one of these up. A walk along a level of a skip list takes as many rounds as the list
-- has nodes, which is enough on a valid list. A level of a manifest file takes no more rounds than the
-- file has bytes left. Offsets in a table file are narrowed to int32_t and its sizes are 64-bit numbers;
-- reading a file back asks for fewer than 2 ^ 31 bytes. The loop over the levels of a compaction runs at
-- most `max_level_size` times, which is its own bound. Hashes are taken modulo 2 ^ 64; int32_t comparisons
-- of log indices are by their rank modulo 2 ^ 32; parsed integers are bounded by their types. Other
-- counters are natural numbers.
--
-- Parameters. The length and the seeds of a Bloom filter and the size of a file are the record
-- `TableParams`; a compression library is a record `Compressor`, and that it is lossless is a hypothesis.
-- Bytes of a file that a constructor skips, and cells of the ring buffer that were never written, hold
-- anything. The height of a node of the skip list is an argument of its `put`.
--
-- Conditions. The database is modelled with compression off and with one writer at a time; a step that
-- would overwrite the file of a table in use has no result. What `DBKVStore` relies on is the record
-- `Database`: KvStore/Databases fills it with the states of `Db` in which no memtable is on its way to the
-- flush queue or to a file, so nothing is said of a call that runs while one is.
--
-- Not modelled: the mapping of files into memory, its failures, the caches, the prefetching of blocks, the
-- asynchronous writers and quorum readers, the lists of LLM records that are sorted by a time, the
-- configuration, and the network. Locks appear as the size of a step.

pub mod Prelude
pub mod Codec
pub mod Bloom
pub mod Lsm
pub mod MemTable
pub mod Db
pub mod Raft
pub mod Llm
pub mod KeyIndex
pub mod KvStore
pub mod Tests
