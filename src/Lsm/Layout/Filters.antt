-- ===== src/Lsm/Layout/Filters.antt =====
-- A Bloom filter that is saved and loaded.
use moyuan_kv.Prelude.{
  length, set, get_or, drop, replicate, All, length-append, length-set, length-replicate, Bytes, ℕ,
  zero, suc, ◌+◌, ◌-◌, ◌*◌, ◌/◌, ◌%◌, ◌<◌, ◌≡◌, refl, sym, ap, ◌∙◌, List, [], ◌∷◌, ◌++◌,
  append_assoc, arith,
}
use moyuan_kv.Bloom.{BloomFilter, set_bit, set_at, position, insert_seeds, insert, insert_all, init}
use moyuan_kv.Lsm.Layout.{
  write_size, write_sizes, read_sizes, words_at, load_filter, save_filter, filter_size,
}
use moyuan_kv.Lsm.Layout.Words.{
  IsSize, read_size-write_size, drop-write_size, length-write_word, length-write_sizes,
  read_sizes-write_sizes, drop-part, drop-two,
}

-- The numbers of a filter fit their 64 bits, and the array has the size that its length asks for.
pub record Fits (b : BloomFilter) : Type 0 where
  pub hash_num : IsSize (length b.seed_)
  pub bits : IsSize b.length_
  pub seeds : All IsSize b.seed_
  pub words : All IsSize b.data_
  pub covers : length b.data_ ≡ b.length_ / 64 + 1

-- 2 ^ n
unfoldable power : ℕ → ℕ
power zero = 1
power (suc n) = 2 * power n

set_bit-lt : (n w i : ℕ) → w < power n → i < n → set_bit w i < power n
unfolding set_bit power
set_bit-lt zero w i h k = absurd (omega (arith, k))
set_bit-lt (suc n) w zero h k = ground (arith, h)
set_bit-lt (suc n) w (suc i) h k =
    omega (arith, h, set_bit-lt n (w / 2) i (omega (arith, h)) (omega (arith, k)))

set_bit-IsSize : (w i : ℕ) → IsSize w → i < 64 → IsSize (set_bit w i)
unfolding power
set_bit-IsSize w i h k = set_bit-lt 64 w i h k

get_or-IsSize : (ws : List ℕ) (i : ℕ) → All IsSize ws → IsSize (get_or ws i 0)
get_or-IsSize [] i h = omega arith
get_or-IsSize (w ∷ ws) zero h = h.0
get_or-IsSize (w ∷ ws) (suc i) h = get_or-IsSize ws i h.1

set-IsSize : (ws : List ℕ) (i v : ℕ) → All IsSize ws → IsSize v → All IsSize (set ws i v)
set-IsSize [] i v h k = tt
set-IsSize (w ∷ ws) zero v h k = (k, h.1)
set-IsSize (w ∷ ws) (suc i) v h k = (h.0, set-IsSize ws i v h.1 k)

insert_seeds-IsSize :
    (b : BloomFilter) (s : Bytes) (seeds words : List ℕ)
    → All IsSize words
    → All IsSize (insert_seeds b s seeds words)
unfolding insert_seeds set_at
insert_seeds-IsSize b s [] words h = h
insert_seeds-IsSize b s (seed ∷ seeds) words h =
    let key = position b s seed in
    insert_seeds-IsSize b s seeds _ (
      set-IsSize words (key / 64) _ h (
        set_bit-IsSize (get_or words (key / 64) 0) (key % 64) (get_or-IsSize words (key / 64) h)
          (omega arith)))

insert_seeds-length :
    (b : BloomFilter) (s : Bytes) (seeds words : List ℕ)
    → length (insert_seeds b s seeds words) ≡ length words
unfolding insert_seeds set_at
insert_seeds-length b s [] words = refl
insert_seeds-length b s (seed ∷ seeds) words =
    insert_seeds-length b s seeds _ ∙ length-set words (position b s seed / 64) _

insert-Fits : (b : BloomFilter) (s : Bytes) → Fits b → Fits (insert b s)
unfolding insert
insert-Fits b s f = record {
  hash_num = f.hash_num;
  bits = f.bits;
  seeds = f.seeds;
  words = insert_seeds-IsSize b s b.seed_ b.data_ f.words;
  covers = insert_seeds-length b s b.seed_ b.data_ ∙ f.covers;
}

-- Inserting keys writes to the array only where it has words, and the words keep to 64 bits.
pub insert_all-Fits : (b : BloomFilter) (keys : List Bytes) → Fits b → Fits (insert_all b keys)
unfolding insert_all
insert_all-Fits b [] f = f
insert_all-Fits b (s ∷ keys) f = insert_all-Fits (insert b s) keys (insert-Fits b s f)

-- Inserting keys changes neither the length nor the seeds.
pub insert_all-same :
    (b : BloomFilter) (keys : List Bytes)
    → (length (insert_all b keys).seed_ ≡ length b.seed_)
      × ((insert_all b keys).length_ ≡ b.length_)
unfolding insert_all insert
insert_all-same b [] = (refl, refl)
insert_all-same b (s ∷ keys) = insert_all-same (insert b s) keys

replicate-IsSize : (n : ℕ) → All IsSize (replicate n 0)
replicate-IsSize zero = tt
replicate-IsSize (suc n) = (omega arith, replicate-IsSize n)

pub init-Fits :
    (len : ℕ) (seeds : List ℕ)
    → IsSize (length seeds)
    → IsSize len
    → All IsSize seeds
    → Fits (init len seeds)
unfolding init
init-Fits len seeds n l s = record {
  hash_num = n;
  bits = l;
  seeds = s;
  words = replicate-IsSize (len / 64 + 1);
  covers = length-replicate (len / 64 + 1) 0;
}

module _ (old : ℕ → Bytes) (old-length : (n : ℕ) → length (old n) ≡ n) where
  padding : ℕ → Bytes
  padding n = old (8 - (16 + 8 * n) % 8)

  -- The saved filter with what follows it, part by part.
  save_parts :
      (b : BloomFilter) (s : Bytes)
      → save_filter old b ++ s
        ≡ write_size (length b.seed_)
          ++ (write_size b.length_
              ++ (write_sizes b.seed_ ++ (padding (length b.seed_) ++ (write_sizes b.data_ ++ s))))
  unfolding save_filter padding
  save_parts b s =
      append_assoc (write_size (length b.seed_)) _ s
      ∙ ap (λ (x : Bytes). write_size (length b.seed_) ++ x)
          (append_assoc (write_size b.length_) _ s
            ∙ ap (λ (x : Bytes). write_size b.length_ ++ x)
                (append_assoc (write_sizes b.seed_) _ s
                  ∙ ap (λ (x : Bytes). write_sizes b.seed_ ++ x)
                      (append_assoc (padding (length b.seed_)) _ s)))

  drop-seeds :
      (n l : ℕ) (seeds : List ℕ) (s : Bytes)
      → length seeds ≡ n
      → drop
          (words_at n)
          (write_size n ++ (write_size l ++ (write_sizes seeds ++ (padding n ++ s))))
        ≡ s
  unfolding padding
  drop-seeds n l seeds s e =
      let front = write_size n ++ (write_size l ++ (write_sizes seeds ++ padding n)) in
      let parts =
        append_assoc (write_size n) (write_size l ++ (write_sizes seeds ++ padding n)) s
        ∙ ap (λ (x : Bytes). write_size n ++ x)
            (append_assoc (write_size l) (write_sizes seeds ++ padding n) s
              ∙ ap (λ (x : Bytes). write_size l ++ x)
                  (append_assoc (write_sizes seeds) (padding n) s)) in
      let len : length front ≡ words_at n = omega (
        arith,
        length-append (write_size n) (write_size l ++ (write_sizes seeds ++ padding n)),
        length-append (write_size l) (write_sizes seeds ++ padding n),
        length-append (write_sizes seeds) (padding n),
        length-write_word 8 n,
        length-write_word 8 l,
        length-write_sizes seeds,
        old-length (8 - (16 + 8 * n) % 8),
        e,
      ) in
      ap (drop (words_at n)) (sym parts) ∙ drop-part (words_at n) front s len

  pub load_filter-save_filter :
      (b : BloomFilter) (s : Bytes)
      → Fits b
      → load_filter (save_filter old b ++ s) ≡ (b, filter_size b)
  unfolding load_filter filter_size
  load_filter-save_filter b s f =
      let tail = padding (length b.seed_) ++ (write_sizes b.data_ ++ s) in
      let num =
        read_size-write_size (length b.seed_)
          (write_size b.length_ ++ (write_sizes b.seed_ ++ tail)) f.hash_num in
      let second =
        drop-write_size (length b.seed_) (write_size b.length_ ++ (write_sizes b.seed_ ++ tail)) in
      let bits = read_size-write_size b.length_ (write_sizes b.seed_ ++ tail) f.bits in
      let third = drop-two (length b.seed_) b.length_ (write_sizes b.seed_ ++ tail) in
      let seeds = read_sizes-write_sizes b.seed_ tail f.seeds in
      let words =
        ap (λ (n : ℕ). read_sizes n (write_sizes b.data_ ++ s)) (sym f.covers)
        ∙ read_sizes-write_sizes b.data_ s f.words in
      let last = drop-seeds (length b.seed_) b.length_ b.seed_ (write_sizes b.data_ ++ s) refl in
      rw (save_parts b s, num, second, bits, third, seeds, last, words) refl

  pub length-save_filter : (b : BloomFilter) → Fits b → length (save_filter old b) ≡ filter_size b
  unfolding save_filter filter_size
  length-save_filter b f =
      let pad = old (8 - (16 + 8 * length b.seed_) % 8) in
      omega (
        arith,
        length-append (write_size (length b.seed_))
            (write_size b.length_ ++ (write_sizes b.seed_ ++ (pad ++ write_sizes b.data_))),
        length-append (write_size b.length_) (write_sizes b.seed_ ++ (pad ++ write_sizes b.data_)),
        length-append (write_sizes b.seed_) (pad ++ write_sizes b.data_),
        length-append pad (write_sizes b.data_),
        length-write_word 8 (length b.seed_),
        length-write_word 8 b.length_,
        length-write_sizes b.seed_,
        length-write_sizes b.data_,
        old-length (8 - (16 + 8 * length b.seed_) % 8),
        f.covers,
      )
