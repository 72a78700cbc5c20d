-- ===== src/Lsm/Layout/Tables.antt =====
-- A table file is loaded as the table that was built.
use moyuan_kv.Prelude.{
  ltb, leb, ◌==◌, if◌then◌else◌, length, get_or, take, drop, All, length-append, take-append, Bytes,
  ℕ, ◌+◌, ◌-◌, ◌*◌, ◌%◌, ◌<◌, ◌≡◌, refl, sym, ap, ap₂, ◌∙◌, Bool, true, false, ◌&&◌, Option, List,
  [], ◌∷◌, ◌++◌, append-nil, append_assoc, arith,
}
use moyuan_kv.Bloom.{BloomFilter, init}
use moyuan_kv.Lsm.Entries.{Entry}
use moyuan_kv.Lsm.Block.{DataBlock, no_entry}
use moyuan_kv.Lsm.Sst.{TableParams, build_block, build, keys}
use moyuan_kv.Lsm.Layout.{
  write_word, read_word, write_size, read_size, write_sizes, filter_size, save_filter, load_filter,
  parse_entries, counted, index_block_size, write_index, data_block_size, write_table, file_size,
  Compressor, is_encoded, magic, narrow, load_block, load_indexes, load_table,
}
use moyuan_kv.Lsm.Layout.Words.{
  IsSize, read_size-write_size, drop-write_size, length-write_word, drop-two, drop-part,
}
use moyuan_kv.Lsm.Layout.Filters.{
  Fits, insert_all-Fits, insert_all-same, init-Fits, load_filter-save_filter, length-save_filter,
}
use moyuan_kv.Lsm.Layout.Parsing.{length-counted, parse_entries-counted}

-- The seeds are 64-bit numbers, and the length is one.
pub record DrawsSizes (p : TableParams) (n : ℕ) : Type 0 where
  pub seeds : All IsSize (p.filter_seeds n)

-- The first four bytes of a filter are its number of seeds.
low_word : (v : ℕ) (s : Bytes) → v < 4294967296 → read_word 4 (write_size v ++ s) ≡ v
unfolding read_word write_word
low_word v s h = omega (arith, h)

narrow_small : (n : ℕ) → n < 2147483648 → narrow n ≡ n
unfolding narrow
narrow_small n h =
    let low : n % 4294967296 ≡ n = omega (arith, h) in
    let minus : (n == 4294967295) ≡ false = ground (arith, h) in
    let small : ltb n 2147483648 ≡ true = ground (arith, h) in rw (low, minus, small) refl

pub build_block-Fits :
    (p : TableParams) (es : List Entry)
    → All IsSize (p.filter_seeds (length es))
    → filter_size (build_block p es).bloom_filter < 2147483648
    → Fits (build_block p es).bloom_filter
unfolding build_block filter_size init
build_block-Fits p es w h =
    let start = init (p.filter_length (length es)) (p.filter_seeds (length es)) in
    let same = insert_all-same start (keys es) in
    insert_all-Fits start (keys es)
      (init-Fits _ _ (omega (arith, same.0, h)) (omega (arith, same.1, h)) w)

module _ (create : ℕ → Option Compressor) where
  load_plain :
      (block payload : Bytes) (size n : ℕ) (b : BloomFilter) (es : List Entry)
      → read_size block ≡ size
      → drop 8 block ≡ payload
      → is_encoded payload (if ltb 8 size then size - 8 else 0) ≡ false
      → load_filter payload ≡ (b, n)
      → parse_entries
          (drop n payload)
          ((size + 18446744073709551616 - (8 + n)) % 18446744073709551616)
        ≡ es
      → load_block create block ≡ record { data_index = es; bloom_filter = b }
  unfolding load_block
  load_plain block payload size n b es s p e f d = rw (s, p, e, f, d) refl

  module _ (old : ℕ → Bytes) (old-length : (n : ℕ) → length (old n) ≡ n) where
    not_encoded :
        (b : BloomFilter) (rest : Bytes) (size : ℕ)
        → filter_size b < 2147483648
        → is_encoded (save_filter old b ++ rest) size ≡ false
    unfolding is_encoded save_filter filter_size
    not_encoded b rest size h =
        let behind =
          write_size b.length_
          ++ (write_sizes b.seed_
              ++ (old (8 - (16 + 8 * length b.seed_) % 8) ++ write_sizes b.data_)) in
        let first =
          ap (read_word 4) (append_assoc (write_size (length b.seed_)) behind rest)
          ∙ low_word (length b.seed_) (behind ++ rest) (omega (arith, h)) in
        let other : (length b.seed_ == magic) ≡ false = ground (arith, h) in
        rw (first, other) (none_of (leb 16 size))
      where
        none_of : (c : Bool) → (c && false) ≡ false
        none_of true = refl
        none_of false = refl

    load_block-plain :
        (b : BloomFilter) (es : List Entry) (size : ℕ)
        → Fits b
        → size ≡ 8 + filter_size b + length (counted es)
        → size < 2147483648
        → load_block create (write_size size ++ (save_filter old b ++ counted es))
          ≡ record { data_index = es; bloom_filter = b }
    load_block-plain b es size f e h =
        let payload = save_filter old b ++ counted es in
        let rest : (size + 18446744073709551616 - (8 + filter_size b)) % 18446744073709551616
            ≡ length (counted es) =
          omega (arith, e, h) in
        load_plain _ payload size (filter_size b) b es
          (read_size-write_size size payload (omega (arith, h))) (drop-write_size size payload)
          (not_encoded b (counted es) _ (omega (arith, e, h)))
          (load_filter-save_filter old old-length b (counted es) f)
          (ap₂ parse_entries
              (drop-part (filter_size b) (save_filter old b) (counted es)
                  (length-save_filter old old-length b f)
                ∙ sym (append-nil (counted es)))
              rest
            ∙ parse_entries-counted es (length (counted es)) [] (omega (arith, e, h)) (omega arith))

    -- The index block in its parts, with the data block behind it.
    abbrev index_parts : List Entry → Bytes → Bytes
    index_parts es s =
        let key = (get_or es 0 no_entry).key in
        write_size (index_block_size es)
        ++ (write_size 1
            ++ (write_size (index_block_size es)
                ++ (write_size (length key)
                    ++ (key ++ (old (index_block_size es - (32 + length key)) ++ s)))))

    write_index-parts : (es : List Entry) (s : Bytes) → write_index old es ++ s ≡ index_parts es s
    unfolding write_index
    write_index-parts es s =
        let size = write_size (index_block_size es) in
        let key = (get_or es 0 no_entry).key in
        append_assoc size _ s
        ∙ ap (λ (x : Bytes). size ++ x)
            (append_assoc (write_size 1) _ s
              ∙ ap (λ (x : Bytes). write_size 1 ++ x)
                  (append_assoc size _ s
                    ∙ ap (λ (x : Bytes). size ++ x)
                        (append_assoc (write_size (length key)) _ s
                          ∙ ap (λ (x : Bytes). write_size (length key) ++ x)
                              (append_assoc key _ s))))

    pub length-write_index :
        (e : Entry) (es : List Entry)
        → length (write_index old (e ∷ es)) ≡ index_block_size (e ∷ es)
    unfolding write_index index_block_size
    length-write_index e es =
        let total = 2 * 8 * (length (e ∷ es) + 1) + length e.key in
        let gap = old (total - (32 + length e.key)) in
        omega (
          arith,
          length-append (write_size total)
              (write_size 1 ++ (write_size total ++ (write_size (length e.key) ++ (e.key ++ gap)))),
          length-append (write_size 1)
              (write_size total ++ (write_size (length e.key) ++ (e.key ++ gap))),
          length-append (write_size total) (write_size (length e.key) ++ (e.key ++ gap)),
          length-append (write_size (length e.key)) (e.key ++ gap),
          length-append e.key gap,
          length-write_word 8 total,
          length-write_word 8 1,
          length-write_word 8 (length e.key),
          old-length (total - (32 + length e.key)),
        )

    load_one :
        (table rest block key : Bytes)
        → read_size (drop 8 table) ≡ 1
        → drop 16 table ≡ rest
        → take (read_size (drop 8 rest)) (drop 16 rest) ≡ key
        → drop (narrow (read_size rest)) table ≡ block
        → load_table create table ≡ record { key = key; block = load_block create block } ∷ []
    unfolding load_table load_indexes
    load_one table rest block key c r k b = rw (c, r, k, b) refl

    -- An index block of one data block, which starts behind it.
    pub load_table-write_index :
        (e : Entry) (es : List Entry) (block : Bytes)
        → index_block_size (e ∷ es) < 2147483648
        → load_table create (write_index old (e ∷ es) ++ block)
          ≡ record { key = e.key; block = load_block create block } ∷ []
    unfolding index_block_size
    load_table-write_index e es block h =
        let size = 2 * 8 * (length (e ∷ es) + 1) + length e.key in
        let gap = old (size - (32 + length e.key)) in
        let keyed = e.key ++ (gap ++ block) in
        let rest = write_size size ++ (write_size (length e.key) ++ keyed) in
        let parts = write_index-parts (e ∷ es) block in
        load_one _ rest block e.key
          (ap (λ (x : Bytes). read_size (drop 8 x)) parts
            ∙ ap read_size (drop-write_size size (write_size 1 ++ rest))
            ∙ read_size-write_size 1 rest (omega arith))
          (ap (drop 16) parts ∙ drop-two size 1 rest)
          (ap₂ take
              (ap read_size (drop-write_size size (write_size (length e.key) ++ keyed))
                ∙ read_size-write_size (length e.key) keyed (omega (arith, h)))
              (drop-two size (length e.key) keyed)
            ∙ take-append e.key (gap ++ block))
          (ap (λ (n : ℕ). drop n (write_index old (e ∷ es) ++ block))
              (ap narrow (
                  read_size-write_size size (write_size (length e.key) ++ keyed) (omega (arith, h)))
                ∙ narrow_small size h)
            ∙ drop-part size (write_index old (e ∷ es)) block (length-write_index e es))

    -- Loading the file that the constructor of `SST` without compression writes gives the index and the
    -- block of the table that was built, for at least one entry, 64-bit seeds and a file below 2 ^ 31
    -- bytes, whatever was in the bytes of the file that are not written.
    pub load_table-write_table :
        (p : TableParams) (e : Entry) (es : List Entry) (id : ℕ)
        → All IsSize (p.filter_seeds (length (e ∷ es)))
        → file_size p (e ∷ es) < 2147483648
        → load_table create (write_table old p (e ∷ es)) ≡ (build p (e ∷ es) id).blocks
    unfolding write_table file_size data_block_size build build_block
    load_table-write_table p e es id w h =
        let b = (build_block p (e ∷ es)).bloom_filter in
        let fits = build_block-Fits p (e ∷ es) w (omega (arith, h)) in
        load_table-write_index e es _ (omega (arith, h))
        ∙ ap (λ (x : DataBlock). record { key = e.key; block = x } ∷ [])
            (load_block-plain b (e ∷ es) _ fits (omega (arith, length-counted (e ∷ es)))
              (omega (arith, h)))
