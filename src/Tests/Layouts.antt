-- ===== src/Tests/Layouts.antt =====
-- The file of a table of two entries, plain, encoded and compressed.
use moyuan_kv.Prelude.{
  ◌==◌, if◌then◌else◌, ==→eq, Bool-cases, length, replicate, All, length-replicate, Bytes, ℕ, zero,
  suc, ◌+◌, ◌*◌, ◌≡◌, refl, sym, ap, ap₂, subst, inl, inr, true, Option, none, some, List, [], ◌∷◌,
  arith,
}
use moyuan_kv.Bloom.{init, insert, insert_all}
use moyuan_kv.Lsm.Entries.{Entry}
use moyuan_kv.Lsm.Sst.{TableParams, build, build_block}
use moyuan_kv.Lsm.Layout.{
  write_entry, write_entries, counted, sizes_sum, index_block_size, filter_size, data_block_size,
  file_size, write_table, Compressor, CompressionConfig, load_table, write_encoded_table,
  write_word,
}
use moyuan_kv.Lsm.Layout.Words.{IsSize}
use moyuan_kv.Lsm.Layout.Tables.{load_table-write_table}
use moyuan_kv.Lsm.Layout.Encoded.{IsLossless, load_table-write_encoded_table}

abbrev pub small_params : TableParams
small_params = record {
  filter_length = λ n. n * 8 + 1;
  filter_seeds = λ n. 3 ∷ 7 ∷ [];
  encoded_size = length;
  filter_length_pos = λ n. omega arith;
}

abbrev first_entry : Entry
first_entry = record { key = b'a' ∷ []; value = b'x' ∷ b'y' ∷ [] }

abbrev second_entry : Entry
second_entry = record { key = b'b' ∷ b'c' ∷ []; value = 0 ∷ 0 ∷ [] }

abbrev pub two : List Entry
two = first_entry ∷ second_entry ∷ []

-- Bytes that stood in the file before.
abbrev pub stale : ℕ → Bytes
stale n = replicate n 255

stale-length : (n : ℕ) → length (stale n) ≡ n
stale-length n = length-replicate n 255

seeds_fit : All IsSize (small_params.filter_seeds 2)
seeds_fit = (omega arith, (omega arith, tt))

-- A compressor that leaves out the zeros at the end.
unfoldable strip : Bytes → Bytes
strip [] = []
strip (b ∷ bs) = elim (strip bs) [ [] ↦ if b == 0 then [] else b ∷ [] | c ∷ cs ↦ b ∷ c ∷ cs ]

unfoldable pad : Bytes → ℕ → Bytes
pad bs zero = []
pad [] (suc n) = 0 ∷ pad [] n
pad (b ∷ bs) (suc n) = b ∷ pad bs n

pad-strip : (x : Bytes) → pad (strip x) (length x) ≡ x
unfolding strip pad
pad-strip [] = refl
pad-strip (b ∷ bs) = go (strip bs) (pad-strip bs)
  where
    go :
        (s : Bytes)
        → pad s (length bs) ≡ bs
        → pad
            (elim s [ [] ↦ if b == 0 then [] else b ∷ [] | c ∷ cs ↦ b ∷ c ∷ cs ])
            (suc (length bs))
          ≡ b ∷ bs
    go [] e = elim (Bool-cases (b == 0)) [
      | inl z ↦ rw z (ap₂ ◌∷◌ (sym (==→eq b 0 z)) e)
      | inr z ↦ rw z (ap (◌∷◌ b) e)
    ]
    go (c ∷ cs) e = ap (◌∷◌ b) e

abbrev stripping : Compressor
stripping = record { compress = strip; decompress = pad }

abbrev create : ℕ → Option Compressor
create n = if n == 2 then some stripping else none

create-IsLossless : (c : Compressor) → create 2 ≡ some c → IsLossless c
create-IsLossless c e = subst IsLossless (same_compressor c e) (λ x h. pad-strip x)
  where
    same_compressor : (c : Compressor) → some stripping ≡ some c → stripping ≡ c
    same_compressor c e = cc

abbrev config : CompressionConfig
config = record { compression_type = 2; enable = true; min_size_for_compression = 64 }

size_two : file_size small_params two ≡ 152
unfolding file_size index_block_size data_block_size sizes_sum filter_size build_block insert_all
    insert init
size_two = refl

load_table-write_table_example :
    load_table create (write_table stale small_params two) ≡ (build small_params two 7).blocks
load_table-write_table_example =
    load_table-write_table create stale stale-length small_params first_entry (second_entry ∷ []) 7
      seeds_fit (omega (arith, size_two))

size_encoded :
    index_block_size two
      + (24 + filter_size (build_block small_params two).bloom_filter + length (counted two))
    ≡ 168
unfolding index_block_size filter_size build_block insert_all insert init counted write_entries
    write_entry write_word
size_encoded = refl

load_table-write_encoded_table_example :
    load_table create (write_encoded_table create config small_params stale two)
    ≡ (build small_params two 7).blocks
load_table-write_encoded_table_example =
    load_table-write_encoded_table create config small_params stale first_entry (second_entry ∷ [])
      7 stale-length create-IsLossless seeds_fit (omega (arith, size_encoded))
