-- ===== src/Lsm/Layout.antt =====
-- The bytes of a table file (mokv/lsm/sst.hpp and mokv/utils/bloom_filter.hpp): what the constructors of
-- `SST` write and what its `Load` reads. Memory is a list of bytes; a pointer into it is what is left
-- from there on, and bytes behind its end read as zero. `old` gives the bytes of the file that a
-- constructor skips.
pub mod Words
pub mod Filters
pub mod Parsing
pub mod Tables
pub mod Encoded
use moyuan_kv.Prelude.{
  ltb, leb, ◌==◌, if◌then◌else◌, length, get_or, take, drop, replicate, Bytes, ℕ, zero, suc, ◌+◌,
  ◌-◌, ◌*◌, ◌/◌, ◌%◌, Bool, true, false, ◌&&◌, Option, none, some, List, [], ◌∷◌, ◌++◌,
}
use moyuan_kv.Bloom.{BloomFilter}
use moyuan_kv.Lsm.Entries.{Entry}
use moyuan_kv.Lsm.Block.{DataBlock, no_entry}
use moyuan_kv.Lsm.Sst.{BlockIndex, build_block, TableParams}

-- An unsigned number of `n` bytes, the least byte first.
unfoldable pub write_word : ℕ → ℕ → Bytes
write_word zero v = []
write_word (suc n) v = v % 256 ∷ write_word n (v / 256)

unfoldable pub read_word : ℕ → Bytes → ℕ
read_word zero s = 0
read_word (suc n) [] = 0
read_word (suc n) (b ∷ s) = b + 256 * read_word n s

-- `WriteSize` and `ReadSize`, and the casts to `size_t*` that do the same.
abbrev pub write_size : ℕ → Bytes
write_size = write_word 8

abbrev pub read_size : Bytes → ℕ
read_size = read_word 8

unfoldable pub write_sizes : List ℕ → Bytes
write_sizes [] = []
write_sizes (v ∷ vs) = write_size v ++ write_sizes vs

unfoldable pub read_sizes : ℕ → Bytes → List ℕ
read_sizes zero s = []
read_sizes (suc n) s = read_size s ∷ read_sizes n (drop 8 s)

-- The offset of the bit array in a saved filter, behind its numbers and a padding.
abbrev pub words_at : ℕ → ℕ
words_at hash_num = let index = 16 + 8 * hash_num in index + (8 - index % 8)

-- `BloomFilter::Load`: the filter and the number of bytes.
unfoldable pub load_filter : Bytes → BloomFilter × ℕ
load_filter s =
    let hash_num = read_size s in
    let length = read_size (drop 8 s) in
    let size = length / 64 + 1 in
    (
      record {
        length_ = length;
        seed_ = read_sizes hash_num (drop 16 s);
        data_ = read_sizes size (drop (words_at hash_num) s);
      },
      words_at hash_num + size * 8,
    )

-- `BloomFilter::binary_size`.
unfoldable pub filter_size : BloomFilter → ℕ
filter_size b = words_at (length b.seed_) + (b.length_ / 64 + 1) * 8

-- `ParseEntries` from an entry on, `rest` being at `entries_data + index`. The additions are of type
-- `size_t`.
unfoldable pub parse_from : ℕ → ℕ → ℕ → Bytes → Option (List Entry)
parse_from zero index size rest = some []
parse_from (suc n) index size rest =
    let key_size = read_size rest in
    let value_size = read_size (drop 8 rest) in
    let record_size = (16 + key_size + value_size) % 18446744073709551616 in
    let body = drop 16 rest in
    elim (ltb size (index + 16)) [
      | true ↦ none
      | false ↦ elim (ltb size ((index + record_size) % 18446744073709551616)) [
        | true ↦ none
        | false ↦
            elim (parse_from n (index + record_size) size (drop value_size (drop key_size body))) [
              | none ↦ none
              | some es ↦ some (
                  record { key = take key_size body; value = take value_size (drop key_size body) }
                  ∷ es)
            ]
      ]
    ]

-- `ParseEntries`: a block that does not fit has no entries.
unfoldable pub parse_entries : Bytes → ℕ → List Entry
parse_entries entries_data size =
    if ltb size 8
    then []
    else elim (parse_from (read_size entries_data) 8 size (drop 8 entries_data)) [
      | none ↦ []
      | some es ↦ es
    ]

-- An entry of a data block: two sizes, the key, the value.
unfoldable pub write_entry : Entry → Bytes
write_entry e = write_size (length e.key) ++ (write_size (length e.value) ++ (e.key ++ e.value))

unfoldable pub write_entries : List Entry → Bytes
write_entries [] = []
write_entries (e ∷ es) = write_entry e ++ write_entries es

-- The number of entries, and the entries.
unfoldable pub counted : List Entry → Bytes
counted es = write_size (length es) ++ write_entries es

-- The bytes of an entry besides its two sizes.
unfoldable pub sizes_sum : List Entry → ℕ
sizes_sum [] = 0
sizes_sum (e ∷ es) = length e.key + length e.value + sizes_sum es

-- `index_block_size`: room for as many index entries as there are entries, but for one key.
unfoldable pub index_block_size : List Entry → ℕ
index_block_size es = 2 * 8 * (length es + 1) + length (get_or es 0 no_entry).key

module _ (p : TableParams) where
  -- `data_block_size`.
  unfoldable pub data_block_size : List Entry → ℕ
  data_block_size es =
      8 + sizes_sum es + length es * 2 * 8 + filter_size (build_block p es).bloom_filter + 8

  -- `file_size_`.
  unfoldable pub file_size : List Entry → ℕ
  file_size es = index_block_size es + data_block_size es

module _ (old : ℕ → Bytes) where
  -- `BloomFilter::Save`.
  unfoldable pub save_filter : BloomFilter → Bytes
  save_filter b =
      write_size (length b.seed_)
      ++ (write_size b.length_
          ++ (write_sizes b.seed_
              ++ (old (8 - (16 + 8 * length b.seed_) % 8) ++ write_sizes b.data_)))

  -- The index block of one data block, which follows it.
  unfoldable pub write_index : List Entry → Bytes
  write_index es =
      let key = (get_or es 0 no_entry).key in
      write_size (index_block_size es)
      ++ (write_size 1
          ++ (write_size (index_block_size es)
              ++ (write_size (length key)
                  ++ (key ++ old (index_block_size es - (32 + length key))))))

  module _ (p : TableParams) where
    -- What `SST(entries, id, data_dir)` and `SST(memtable, id, data_dir)` write to the file.
    unfoldable pub write_table : List Entry → Bytes
    write_table es =
        write_index es
        ++ (write_size (data_block_size p es)
            ++ (save_filter (build_block p es).bloom_filter ++ counted es))

-- `Compressor`: `decompress` has the size that is expected, and gives the bytes that it wrote.
pub record Compressor : Type 0 where
  pub compress : Bytes → Bytes
  pub decompress : Bytes → ℕ → Bytes

-- `CompressionConfig`; the types are 0 for none, 1 for Snappy and 2 for LZ4.
pub record CompressionConfig : Type 0 where
  pub compression_type : ℕ
  pub enable : Bool
  pub min_size_for_compression : ℕ

-- A filter that was never loaded: it has no seeds and denies no key.
abbrev pub no_filter : BloomFilter
no_filter = record { length_ = 0; seed_ = []; data_ = [] }

-- `kEncodedBlockMagic`.
abbrev pub magic : ℕ
magic = 1447776077

unfoldable pub is_encoded : Bytes → ℕ → Bool
is_encoded payload payload_size = leb 16 payload_size && read_word 4 payload == magic

-- `WriteEncodedBlockHeader`.
unfoldable pub write_header : Bool → ℕ → ℕ → Bytes
write_header compressed compression_type entries_size =
    write_word 4 magic
    ++ (1 ∷ (if compressed then 1 else 0) ∷ compression_type ∷ 0 ∷ write_size entries_size)

-- The implicit conversion of an offset to `int32_t`, and of what is not -1 back to `size_t`.
unfoldable pub narrow : ℕ → ℕ
narrow offset =
    let low = offset % 4294967296 in
    if low == 4294967295 then 0 else if ltb low 2147483648 then low else low + 18446744069414584320

module _ (config : CompressionConfig) (p : TableParams) where
  -- `CompressedBlockBuilder::Build`, without compression: a vector is filled with zeros.
  unfoldable pub encoded_plain : List Entry → Bytes
  encoded_plain es =
      write_header false config.compression_type (length (counted es))
      ++ (save_filter (λ n. replicate n 0) (build_block p es).bloom_filter ++ counted es)

  unfoldable pub encoded_with : Compressor → List Entry → Bytes
  encoded_with c es =
      write_header true config.compression_type (length (counted es))
      ++ (save_filter (λ n. replicate n 0) (build_block p es).bloom_filter
          ++ c.compress (counted es))

  unfoldable pub should_compress : List Entry → Bool
  should_compress es =
      config.enable && leb config.min_size_for_compression (length (encoded_plain es))

-- `CompressionFactory::Create`.
module _ (create : ℕ → Option Compressor) where
  -- `LoadEncodedBlock` behind its tests of the version and the filter.
  unfoldable pub load_encoded_entries : Bool → ℕ → ℕ → Bytes → ℕ → List Entry
  load_encoded_entries false compression_type entries_size encoded size = parse_entries encoded size
  load_encoded_entries true compression_type entries_size encoded size =
      elim (create compression_type) [
        | none ↦ []
        | some c ↦
            let entry_storage = c.decompress (take size encoded) entries_size in
            if length entry_storage == entries_size
            then parse_entries entry_storage entries_size
            else []
      ]

  -- `LoadEncodedBlock`.
  unfoldable pub load_encoded : Bytes → ℕ → DataBlock
  load_encoded payload payload_size =
      let loaded = load_filter (drop 16 payload) in
      let index = 16 + loaded.1 in
      if get_or payload 4 0 == 1
      then record {
        bloom_filter = loaded.0;
        data_index =
            if ltb payload_size index
            then []
            else load_encoded_entries (get_or payload 5 0 % 2 == 1) (get_or payload 6 0)
                (read_size (drop 8 payload)) (drop index payload) (payload_size - index);
      }
      else record { bloom_filter = no_filter; data_index = [] }

  -- `DataBlockIndex::Load` behind the choice of the offset.
  unfoldable pub load_block : Bytes → DataBlock
  load_block block =
      let size = read_size block in
      let payload = drop 8 block in
      let payload_size = if ltb 8 size then size - 8 else 0 in
      let loaded = load_filter payload in
      if is_encoded payload payload_size then load_encoded payload payload_size else record {
        bloom_filter = loaded.0;
        data_index =
            parse_entries (drop loaded.1 payload)
              ((size + 18446744073709551616 - (8 + loaded.1)) % 18446744073709551616);
      }

  -- The loop of `IndexBlockIndex::Load`, each round `DataBlockIndexIndex::Load` at `rest`.
  unfoldable pub load_indexes : ℕ → Bytes → Bytes → List BlockIndex
  load_indexes zero table rest = []
  load_indexes (suc n) table rest =
      let key = take (read_size (drop 8 rest)) (drop 16 rest) in
      record { key = key; block = load_block (drop (narrow (read_size rest)) table) }
      ∷ load_indexes n table (drop (length key) (drop 16 rest))

  -- `IndexBlockIndex::Load`.
  unfoldable pub load_table : Bytes → List BlockIndex
  load_table table = load_indexes (read_size (drop 8 table)) table (drop 16 table)

  module _ (config : CompressionConfig) (p : TableParams) where
    -- `CompressedBlockBuilder::Build`, of at least one entry.
    unfoldable pub build_payload : List Entry → Bytes
    build_payload es = elim (create config.compression_type) [
      | none ↦ encoded_plain config p es
      | some c ↦
          let size = length (c.compress (counted es)) in
          if should_compress config p es && (ltb 0 size && ltb size (length (counted es)))
          then encoded_with config p c es
          else encoded_plain config p es
    ]

    -- What `SST(entries, id, config, data_dir)` and `SST(memtable, id, config, data_dir)` write.
    unfoldable pub write_encoded_table : (ℕ → Bytes) → List Entry → Bytes
    write_encoded_table old es =
        write_index old es ++ (write_size (8 + length (build_payload es)) ++ build_payload es)
