-- ===== src/Lsm/Layout/Encoded.antt =====
-- A table file with an encoded block, compressed or not, is loaded as the table that was built.
use moyuan_kv.Prelude.{
  ltb, leb, ◌==◌, if◌then◌else◌, ==_refl, Bool-cases, Option-cases, length, get_or, take, drop,
  replicate, All, length-append, length-replicate, take-append, Bytes, ℕ, ◌+◌, ◌-◌, ◌%◌, ◌<◌, ◌≡◌,
  refl, sym, ap, ◌∙◌, ◌⊎◌, inl, inr, Bool, true, false, ◌&&◌, Option, none, some, List, [], ◌∷◌,
  ◌++◌, append-nil, append_assoc, arith,
}
use moyuan_kv.Bloom.{BloomFilter}
use moyuan_kv.Lsm.Entries.{Entry}
use moyuan_kv.Lsm.Block.{DataBlock}
use moyuan_kv.Lsm.Sst.{TableParams, build_block, build}
use moyuan_kv.Lsm.Layout.{
  write_word, read_word, write_size, read_size, filter_size, save_filter, load_filter,
  parse_entries, counted, index_block_size, Compressor, CompressionConfig, is_encoded, magic,
  write_header, load_encoded_entries, load_encoded, load_block, load_table, encoded_plain,
  encoded_with, should_compress, build_payload, write_encoded_table,
}
use moyuan_kv.Lsm.Layout.Words.{IsSize, read_size-write_size, drop-write_size, drop-part}
use moyuan_kv.Lsm.Layout.Filters.{Fits, load_filter-save_filter, length-save_filter}
use moyuan_kv.Lsm.Layout.Parsing.{parse_entries-counted}
use moyuan_kv.Lsm.Layout.Tables.{build_block-Fits, load_table-write_index}

-- What a compression library promises: what it compresses, it decompresses, given the size.
abbrev pub IsLossless : Compressor → Type 0
IsLossless c = (x : Bytes) → 0 < length (c.compress x) → c.decompress (c.compress x) (length x) ≡ x

abbrev flag : Bool → ℕ
flag c = if c then 1 else 0

module _ (c : Bool) (t n : ℕ) (s : Bytes) where
  header_magic : read_word 4 (write_header c t n ++ s) ≡ magic
  unfolding read_word write_word write_header
  header_magic = refl

  header_version : get_or (write_header c t n ++ s) 4 0 ≡ 1
  unfolding write_word write_header
  header_version = refl

  header_flags : (get_or (write_header c t n ++ s) 5 0 % 2 == 1) ≡ c
  unfolding write_word write_header
  header_flags = of_flag c
    where
      of_flag : (c : Bool) → (flag c % 2 == 1) ≡ c
      of_flag true = refl
      of_flag false = refl

  header_type : get_or (write_header c t n ++ s) 6 0 ≡ t
  unfolding write_word write_header
  header_type = refl

  header_size : IsSize n → read_size (drop 8 (write_header c t n ++ s)) ≡ n
  unfolding write_word write_header
  header_size h = read_size-write_size n s h

  drop-header : drop 16 (write_header c t n ++ s) ≡ s
  unfolding write_word write_header
  drop-header = drop-write_size n s

  length-header : length (write_header c t n) ≡ 16
  unfolding write_word write_header
  length-header = refl

abbrev zeros : ℕ → Bytes
zeros n = replicate n 0

length-zeros : (n : ℕ) → length (zeros n) ≡ n
length-zeros n = length-replicate n 0

module _ (create : ℕ → Option Compressor) where
  load_encoded_at :
      (payload encoded : Bytes) (size n t raw : ℕ) (c : Bool) (b : BloomFilter) (es : List Entry)
      → get_or payload 4 0 ≡ 1
      → load_filter (drop 16 payload) ≡ (b, n)
      → ltb size (16 + n) ≡ false
      → (get_or payload 5 0 % 2 == 1) ≡ c
      → get_or payload 6 0 ≡ t
      → read_size (drop 8 payload) ≡ raw
      → drop (16 + n) payload ≡ encoded
      → load_encoded_entries create c t raw encoded (size - (16 + n)) ≡ es
      → load_encoded create payload size ≡ record { data_index = es; bloom_filter = b }
  unfolding load_encoded
  load_encoded_at payload encoded size n t raw c b es v f h g y r d e =
      rw (v, f, h, g, y, r, d, e) refl

  load_block-encoded :
      (payload : Bytes) (size : ℕ) (b : DataBlock)
      → IsSize size
      → size ≡ 8 + length payload
      → is_encoded payload (length payload) ≡ true
      → load_encoded create payload (length payload) ≡ b
      → load_block create (write_size size ++ payload) ≡ b
  unfolding load_block
  load_block-encoded payload size b h e m d =
      let room : (if ltb 8 size then size - 8 else 0) ≡ length payload = ground (arith, e) in
      rw (read_size-write_size size payload h, drop-write_size size payload, room, m, d) refl

  -- A block with a header, a filter and encoded entries.
  load_block-header :
      (c : Bool) (t : ℕ) (b : BloomFilter) (es : List Entry) (encoded : Bytes) (size : ℕ)
      → Fits b
      → IsSize (length (counted es))
      → IsSize size
      → size ≡ 24 + filter_size b + length encoded
      → load_encoded_entries create c t (length (counted es)) encoded (length encoded) ≡ es
      → load_block create (
          write_size size
          ++ (write_header c t (length (counted es)) ++ (save_filter zeros b ++ encoded)))
        ≡ record { data_index = es; bloom_filter = b }
  unfolding is_encoded
  load_block-header c t b es encoded size f r h e d =
      let raw = length (counted es) in
      let filter = save_filter zeros b in
      let header = write_header c t raw in
      let behind = filter ++ encoded in
      let payload = header ++ behind in
      let saved = length-save_filter zeros length-zeros b f in
      let lengths : length payload ≡ 16 + filter_size b + length encoded = omega (
        arith,
        length-append header behind,
        length-append filter encoded,
        saved,
        length-header c t raw behind,
      ) in
      let marked : is_encoded payload (length payload) ≡ true =
        let room : leb 16 (length payload) ≡ true = ground (arith, lengths) in
        rw (room, header_magic c t raw behind) refl in
      let room : ltb (length payload) (16 + filter_size b) ≡ false = ground (arith, lengths) in
      let left : length payload - (16 + filter_size b) ≡ length encoded = omega (arith, lengths) in
      let front : length (header ++ filter) ≡ 16 + filter_size b =
        omega (arith, length-append header filter, saved, length-header c t raw behind) in
      load_block-encoded payload size _ h (omega (arith, e, lengths)) marked (
        load_encoded_at payload encoded (length payload) (filter_size b) t raw c b es
          (header_version c t raw behind)
          (ap load_filter (drop-header c t raw behind)
            ∙ load_filter-save_filter zeros length-zeros b encoded f)
          room (header_flags c t raw behind) (header_type c t raw behind)
          (header_size c t raw behind r)
          (ap (drop (16 + filter_size b)) (sym (append_assoc header filter encoded))
            ∙ drop-part (16 + filter_size b) (header ++ filter) encoded front)
          (ap (load_encoded_entries create c t raw encoded) left ∙ d))

  module _ (config : CompressionConfig) (p : TableParams) (old : ℕ → Bytes) (e : Entry)
      (es : List Entry) where
    abbrev all : List Entry
    all = e ∷ es

    abbrev filter : BloomFilter
    filter = (build_block p all).bloom_filter

    -- Either nothing is compressed, or what is written is shorter than what was to be written.
    Chosen : Type 0
    Chosen =
        (build_payload create config p all ≡ encoded_plain config p all)
        ⊎ ((c : Compressor) × (create config.compression_type ≡ some c)
            × (build_payload create config p all ≡ encoded_with config p c all)
            × (0 < length (c.compress (counted all)))
            × (length (c.compress (counted all)) < length (counted all)))

    pays : Compressor → Bool
    pays c =
        should_compress config p all
        && (ltb 0 (length (c.compress (counted all)))
            && ltb (length (c.compress (counted all))) (length (counted all)))

    payload-none :
        create config.compression_type ≡ none
        → build_payload create config p all ≡ encoded_plain config p all
    unfolding build_payload
    payload-none n = rw (build_payload, n) refl

    payload-some :
        (c : Compressor) (b : Bool)
        → create config.compression_type ≡ some c
        → pays c ≡ b
        → build_payload create config p all
          ≡ (if b then encoded_with config p c all else encoded_plain config p all)
    unfolding build_payload pays
    payload-some c b f e = rw (build_payload, f, e) refl

    chosen : Chosen
    unfolding Chosen pays
    chosen = elim (Option-cases (create config.compression_type)) [
      | inl n ↦ inl (payload-none n)
      | inr (c, f) ↦ elim (Bool-cases (pays c)) [
        | inl y ↦
            let less = shorter (should_compress config p all) _ _ y in
            inr (c, f, payload-some c true f y, less.0, less.1)
        | inr n ↦ inl (payload-some c false f n)
      ]
    ]
      where
        shorter : (b : Bool) (n m : ℕ) → (b && (ltb 0 n && ltb n m)) ≡ true → (0 < n) × (n < m)
        shorter true n m h = (ground (arith, h), ground (arith, h))
        shorter false n m h = absurd (ground (arith, h))

    load_block-at :
        (c : Bool) (encoded : Bytes)
        → Fits filter
        → IsSize (length (counted all))
        → 24 + filter_size filter + length encoded < 2147483648
        → load_encoded_entries create c config.compression_type
            (length (counted all))
            encoded
            (length encoded)
          ≡ all
        → (payload : Bytes)
        → payload
          ≡ write_header c config.compression_type (length (counted all))
            ++ (save_filter zeros filter ++ encoded)
        → load_block create (write_size (8 + length payload) ++ payload) ≡ build_block p all
    unfolding build_block
    load_block-at c encoded f r h d payload e =
        let header = write_header c config.compression_type (length (counted all)) in
        let tail = save_filter zeros filter ++ encoded in
        let lengths : 8 + length payload ≡ 24 + filter_size filter + length encoded = omega (
          arith,
          ap length e,
          length-append header tail,
          length-append (save_filter zeros filter) encoded,
          length-save_filter zeros length-zeros filter f,
          length-header c config.compression_type (length (counted all)) tail,
        ) in
        ap (λ (x : Bytes). load_block create (write_size (8 + length payload) ++ x)) e
        ∙ load_block-header c config.compression_type filter all encoded (8 + length payload) f r
            (omega (arith, lengths, h)) lengths d

    -- The entries as they are.
    plain_entries :
        length (counted all) < 2147483648
        → load_encoded_entries create false config.compression_type
            (length (counted all))
            (counted all)
            (length (counted all))
          ≡ all
    unfolding load_encoded_entries
    plain_entries h =
        ap (λ (x : Bytes). parse_entries x (length (counted all))) (sym (append-nil (counted all)))
        ∙ parse_entries-counted all (length (counted all)) [] (omega (arith, h)) (omega arith)

    compressed_entries :
        (c : Compressor)
        → IsLossless c
        → create config.compression_type ≡ some c
        → 0 < length (c.compress (counted all))
        → length (counted all) < 2147483648
        → load_encoded_entries create true config.compression_type
            (length (counted all))
            (c.compress (counted all))
            (length (c.compress (counted all)))
          ≡ all
    unfolding load_encoded_entries
    compressed_entries c l f n h =
        let whole =
          ap (take (length (c.compress (counted all))))
            (sym (append-nil (c.compress (counted all))))
          ∙ take-append (c.compress (counted all)) [] in
        let back =
          ap (λ (x : Bytes). c.decompress x (length (counted all))) whole ∙ l (counted all) n in
        rw (load_encoded_entries, f, back, ==_refl (length (counted all)))
          (ap (λ (x : Bytes). parse_entries x (length (counted all)))
              (sym (append-nil (counted all)))
            ∙ parse_entries-counted all (length (counted all)) [] (omega (arith, h)) (omega arith))

    -- Loading the file that the constructor of `SST` with a compression configuration writes gives the
    -- index and the block of the table that was built, for any type and threshold, for at least one
    -- entry, 64-bit seeds and fewer than 2 ^ 31 bytes before compression, if the library that the type
    -- names is lossless.
    pub load_table-write_encoded_table :
        (id : ℕ)
        → ((n : ℕ) → length (old n) ≡ n)
        → ((c : Compressor) → create config.compression_type ≡ some c → IsLossless c)
        → All IsSize (p.filter_seeds (length all))
        → index_block_size all + (24 + filter_size filter + length (counted all)) < 2147483648
        → load_table create (write_encoded_table create config p old all) ≡ (build p all id).blocks
    unfolding write_encoded_table build Chosen encoded_plain encoded_with
    load_table-write_encoded_table id old-length lossless w h =
        let fits = build_block-Fits p all w (omega (arith, h)) in
        load_table-write_index create old old-length e es _ (omega (arith, h))
        ∙ ap (λ (x : DataBlock). record { key = e.key; block = x } ∷ [])
            (elim chosen [
              | inl plain ↦
                  load_block-at false (counted all) fits (omega (arith, h)) (omega (arith, h))
                    (plain_entries (omega (arith, h))) _ plain
              | inr (c, f, with_c, n, less) ↦
                  load_block-at true (c.compress (counted all)) fits (omega (arith, h))
                    (omega (arith, h, less))
                    (compressed_entries c (lossless c f) f n (omega (arith, h))) _ with_c
            ])
