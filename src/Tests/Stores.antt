-- ===== src/Tests/Stores.antt =====
-- Stores of one and two keys over the database.
use moyuan_kv.Prelude.{
  if◌then◌else◌, Bytes, beq, blt, ◌≡◌, refl, sym, ap, ◌∙◌, inl, false, Option, none, some, List, [],
  ◌∷◌, arith,
}
use moyuan_kv.Db.{is_tombstone}
use moyuan_kv.Db.Run.{Event, begin, contents-open_fresh}
use moyuan_kv.Db
use moyuan_kv.Db.{Db, open_fresh, put_begin, put_end, take_full, start_flush, finish_flush}
use moyuan_kv.Lsm.Insertion.{insert}
use moyuan_kv.Lsm.Sst.{build}
use moyuan_kv.Lsm.Level
use moyuan_kv.Lsm.Manifest
use moyuan_kv.KvStore.Databases.{CalmDb, IsCalm, calm_database, get-calm}
use moyuan_kv.MemTable.SkipLists.{skip_list_table}
use moyuan_kv.Tests.Tables.{sorted_table}
use moyuan_kv.Tests.Layouts.{small_params}
use moyuan_kv.KeyIndex.{serialize_keys, has_prefix}
use moyuan_kv.KvStore.{
  add_key, put, put_open, clear, Database, Store, meta_key_index, is_reserved_key, contains,
  list_entries_by_prefix,
}
use moyuan_kv.KvStore.Index.{IsExact, is_some}
use moyuan_kv.KvStore.Calls.{Call, call, IsExactStore, call-IsExactStore, clear-Emptied, Emptied}
use moyuan_kv.KvStore.Listing.{value_in, value_in-list_entries}
use moyuan_kv.KvStore
use moyuan_kv.Tests.Records
use moyuan_kv.Tests.Records.{cache_entry, odd_text_filled}
use moyuan_kv.KvStore.{ok}
use moyuan_kv.Llm.Stores.{
  put_prompt_cache, get_prompt_cache, put_retrieval_chunk, get_retrieval_chunk,
}
use moyuan_kv.Llm.Stores.Reads.{get_prompt_cache-put, get_retrieval_chunk-put}

abbrev apple : Bytes
apple = b'a' ∷ b'p' ∷ []

abbrev berry : Bytes
berry = b'b' ∷ []

-- The database, with the limit of a memtable at one entry.
abbrev map_database : Database
map_database = calm_database sorted_table small_params 1

-- The same on skip lists.
abbrev skip_list_database : Database
skip_list_database = calm_database skip_list_table small_params 1

abbrev fresh : Db sorted_table
fresh = open_fresh sorted_table 1

fresh-IsCalm : IsCalm sorted_table fresh
unfolding open_fresh
fresh-IsCalm = record { memtable = tt; queued = refl; idle = refl }

abbrev empty_map : CalmDb sorted_table
empty_map = record { db = fresh; calm = fresh-IsCalm }

empty_lacks : (k : Bytes) → map_database.get empty_map k ≡ none
empty_lacks k =
    get-calm sorted_table empty_map k ∙ contents-open_fresh sorted_table small_params 1 k

empty-IsExact : IsExact map_database empty_map []
unfolding is_some contains
empty-IsExact = record {
  index = λ k h. ap is_some (sym (empty_lacks k));
  distinct = tt;
  unreserved = tt;
  saved = inl (refl, empty_lacks meta_key_index);
}

abbrev start : Store map_database
start = record { db = some empty_map; known_keys = []; tracked_bytes_size = 0 }

abbrev both : Call
both = Call.batches ((berry, apple) ∷ (apple, berry) ∷ [])

abbrev stored : Store map_database
stored = (call map_database both start).1

stored-IsExactStore : IsExactStore map_database stored
unfolding is_tombstone beq
stored-IsExactStore = call-IsExactStore map_database both start (refl, (refl, tt)) empty-IsExact

-- The map behind a store of one key, with the saved index.
abbrev one : Store map_database
one = (call map_database (Call.puts apple berry) start).1

one-IsExactStore : IsExactStore map_database one
unfolding is_tombstone beq
one-IsExactStore = call-IsExactStore map_database (Call.puts apple berry) start refl empty-IsExact

abbrev one_map : CalmDb sorted_table
one_map =
    map_database.put meta_key_index (serialize_keys (apple ∷ []))
      (map_database.put apple berry empty_map)

one_db : one.db ≡ some one_map
unfolding call put put_open is_reserved_key has_prefix add_key contains
one_db = refl

one_known : one.known_keys ≡ apple ∷ []
unfolding call put put_open is_reserved_key has_prefix add_key contains
one_known = refl

one-IsExact : IsExact map_database one_map one.known_keys
unfolding call put put_open is_reserved_key has_prefix add_key contains
one-IsExact = one-IsExactStore

clear-Emptied_example : Emptied map_database (clear map_database one)
clear-Emptied_example = clear-Emptied map_database one one_map one_db one-IsExactStore

apple_open : is_reserved_key apple ≡ false
unfolding is_reserved_key has_prefix
apple_open = refl

value_in-list_entries_example :
    value_in apple (list_entries_by_prefix map_database one (b'a' ∷ []))
    ≡ (if has_prefix (b'a' ∷ []) apple then KvStore.get map_database one apple else none)
value_in-list_entries_example =
    value_in-list_entries map_database one one_map (b'a' ∷ []) apple one_db one-IsExact apple_open

get_prompt_cache-put_example :
    ((put_prompt_cache map_database cache_entry one).0 ≡ ok)
    × (get_prompt_cache map_database cache_entry.tenant cache_entry.app_id cache_entry.model
          cache_entry.prompt_hash
          (put_prompt_cache map_database cache_entry one).1
        ≡ some cache_entry)
get_prompt_cache-put_example =
    get_prompt_cache-put map_database cache_entry one one_map one_db (omega arith) (omega arith)
      (omega arith) odd_text_filled odd_text_filled

get_retrieval_chunk-put_example :
    ((put_retrieval_chunk map_database Records.chunk one).0 ≡ ok)
    × (get_retrieval_chunk map_database Records.chunk.tenant Records.chunk.knowledge_base
          Records.chunk.document_id Records.chunk.chunk_id
          (put_retrieval_chunk map_database Records.chunk one).1
        ≡ some Records.chunk)
get_retrieval_chunk-put_example =
    get_retrieval_chunk-put map_database Records.chunk one one_map one_db odd_text_filled
      odd_text_filled

-- The events behind the store of one key, and a round of the flush thread after them.
abbrev events : List Event
events =
    Event.puts 1 apple berry
    ∷ Event.call_ends
    ∷ Event.puts 1 meta_key_index (serialize_keys (apple ∷ []))
    ∷ Event.call_ends
    ∷ []

abbrev or_fresh : Option (Db sorted_table) → Db sorted_table
or_fresh none = fresh
or_fresh (some db) = db

abbrev flushed : Db sorted_table
flushed = or_fresh (finish_flush sorted_table small_params (start_flush sorted_table one_map.db))

flushed-IsCalm : IsCalm sorted_table flushed
unfolding begin Db.put put_begin put_end take_full open_fresh insert start_flush finish_flush
    Db.next_manifest Manifest.insert_and_update Manifest.insert_first Level.insert
    Manifest.can_do_compaction Manifest.level_max_binary_size Level.binary_size Level.sum_sizes
    build Manifest.is_in_use Manifest.has_id beq blt
flushed-IsCalm = record { memtable = tt; queued = refl; idle = refl }

abbrev flushed_map : CalmDb sorted_table
flushed_map = record { db = flushed; calm = flushed-IsCalm }

abbrev after_delete : Store map_database
after_delete = (call map_database (Call.deletes apple) (record one { db = some flushed_map })).1
