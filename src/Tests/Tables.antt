-- ===== src/Tests/Tables.antt =====
-- A memtable to run the database on: a sorted association list.
use moyuan_kv.Prelude.{length, Bytes, ◌≡◌, refl, none, List, []}
use moyuan_kv.Lsm.Entries.{Entry, Sorted, lookup}
use moyuan_kv.Lsm.Insertion.{insert, lookup-insert, insert-Sorted}
use moyuan_kv.MemTable.{MemTable}

pub lookup_nil : (k : Bytes) → lookup k [] ≡ none
unfolding lookup
lookup_nil k = refl

-- `AllocSize` is taken for the number of entries.
abbrev pub sorted_table : MemTable
sorted_table = record {
  Table = List Entry;
  new = [];
  get = λ t k. lookup k t;
  put = λ h k v t. insert k v t;
  binary_size = length;
  entries = λ t. t;
  IsValid = λ t. Sorted t;
  new-IsValid = tt;
  put-IsValid = λ h k v t s. insert-Sorted k v t s;
  get-new = lookup_nil;
  get-put = λ h k v t j s. lookup-insert k v t j;
  entries-Sorted = λ t s. s;
  lookup-entries = λ t k s. refl;
}
