-- ===== src/Lsm/Sst.antt =====
-- `SST` of mokv/lsm/sst.hpp: an index of data blocks by their first keys. The constructors write a
-- file and map it; here a table is what the mapped file holds. The seeds and the length of a Bloom
-- filter are drawn by `BloomFilter::Init`, so they are an argument of `build`.
pub mod Search
use moyuan_kv.Prelude.{
  length, get_or, Bytes, blt, ℕ, zero, suc, ◌<◌, Bool, not, Option, none, List, [], ◌∷◌, ◌++◌, map,
}
use moyuan_kv.Bloom.{init, insert_all}
use moyuan_kv.Lsm.Entries.{Entry}
use moyuan_kv.Lsm.Bisect.{bisect}
use moyuan_kv.Lsm.Block
use moyuan_kv.Lsm.Block.{DataBlock, no_entry}

-- `DataBlockIndexIndex`: the first key of a block, and the block.
pub record BlockIndex : Type 0 where
  pub key : Bytes
  pub block : DataBlock

pub record Sst : Type 0 where
  pub id : ℕ
  pub blocks : List BlockIndex
  pub file_size : ℕ

abbrev pub no_block : BlockIndex
no_block = record {
  key = [];
  block = record { data_index = []; bloom_filter = record { length_ = 1; seed_ = []; data_ = [] } };
}

-- `!(data_block_indexs_[mid].key() > key)`.
abbrev pub starts_by : List BlockIndex → Bytes → ℕ → Bool
starts_by bs key mid = not (blt key (get_or bs mid no_block).key)

-- The branch of `IndexBlockIndex::Get` behind its search, `r != 0`.
unfoldable pub read_block : List BlockIndex → Bytes → ℕ → Option Bytes
read_block bs key zero = none
read_block bs key (suc r) = Block.get (get_or bs r no_block).block key

unfoldable pub get : Sst → Bytes → Option Bytes
get s key =
    read_block s.blocks key
      (bisect (suc (length s.blocks)) (starts_by s.blocks key) 0 (length s.blocks))

-- `SST::Iterator` from `begin()` on: the entries in the order of the blocks.
abbrev pub block_entries : List BlockIndex → List Entry
block_entries [] = []
block_entries (b ∷ bs) = b.block.data_index ++ block_entries bs

abbrev pub entries : Sst → List Entry
entries s = block_entries s.blocks

-- `SST::key`, the first key of the first block.
unfoldable pub first_key : Sst → Bytes
first_key s = (get_or s.blocks 0 no_block).key

abbrev pub keys : List Entry → List Bytes
keys = map λ e. e.key

-- What the code below this layer decides: the length and the seeds that `BloomFilter::Init` draws for
-- a number of keys, and the size of the file that the encoder and the compression library write.
pub record TableParams : Type 0 where
  pub filter_length : ℕ → ℕ
  pub filter_seeds : ℕ → List ℕ
  pub encoded_size : List Entry → ℕ
  -- `CalcLength` ends in `+ 1`.
  pub filter_length_pos : (n : ℕ) → 0 < filter_length n

unfoldable pub build_block : TableParams → List Entry → DataBlock
build_block p es = record {
  data_index = es;
  bloom_filter =
      insert_all (init (p.filter_length (length es)) (p.filter_seeds (length es))) (keys es);
}

-- The constructors `SST(entries, id, …)` and `SST(memtable, id, …)`: one block of all the entries,
-- under the key of the first.
unfoldable pub build : TableParams → List Entry → ℕ → Sst
build p es id = record {
  id = id;
  blocks = record { key = (get_or es 0 no_entry).key; block = build_block p es } ∷ [];
  file_size = p.encoded_size es;
}
