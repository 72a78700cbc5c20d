-- ===== src/Lsm/Block.antt =====
-- `DataBlockIndex` of mokv/lsm/sst.hpp as it stands in memory: a Bloom filter and the sorted entries.
pub mod Search
use moyuan_kv.Prelude.{
  ◌==◌, if◌then◌else◌, length, get_or, Bytes, beq, blt, ℕ, suc, Bool, not, ◌||◌, Option, none, some,
  List, [],
}
use moyuan_kv.Bloom.{BloomFilter, check}
use moyuan_kv.Lsm.Entries.{Entry}
use moyuan_kv.Lsm.Bisect.{bisect}

pub record DataBlock : Type 0 where
  pub data_index : List Entry
  pub bloom_filter : BloomFilter

abbrev pub no_entry : Entry
no_entry = record { key = []; value = [] }

-- `data_index_[mid].key < key`.
abbrev pub key_below : List Entry → Bytes → ℕ → Bool
key_below es key mid = blt (get_or es mid no_entry).key key

-- What follows the search of `Get`: `r == data_index_.size() || data_index_[r].key != key`.
unfoldable pub read_at : List Entry → Bytes → ℕ → Option Bytes
read_at es key r =
    if r == length es || not (beq (get_or es r no_entry).key key)
    then none
    else some (get_or es r no_entry).value

unfoldable pub get : DataBlock → Bytes → Option Bytes
get b key =
    if check b.bloom_filter key
    then read_at b.data_index key
        (bisect (suc (length b.data_index)) (key_below b.data_index key) 0 (length b.data_index))
    else none
