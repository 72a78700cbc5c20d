-- ===== src/Bloom.antt =====
-- mokv/utils/bloom_filter.hpp: the bit array, the polynomial hash, `Insert` and `Check`.
-- `Init` draws its seeds from a random source and its length from floating-point logarithms; both
-- are arguments here. A word of the array is a number below 2 ^ 64.
pub mod Membership
use moyuan_kv.Prelude.{
  ltb, ◌==◌, if◌then◌else◌, length, set, get_or, replicate, Bytes, ℕ, zero, suc, ◌+◌, ◌-◌, ◌*◌, ◌/◌,
  ◌%◌, ◌^◌, Bool, true, false, List, [], ◌∷◌,
}

-- `word | (1ULL << i)`, digit by digit.
unfoldable pub set_bit : ℕ → ℕ → ℕ
set_bit word zero = if word % 2 == 1 then word else word + 1
set_bit word (suc i) = set_bit (word / 2) i * 2 + word % 2

-- `word & (1ULL << i)` as a test.
unfoldable pub test_bit : ℕ → ℕ → Bool
test_bit word zero = word % 2 == 1
test_bit word (suc i) = test_bit (word / 2) i

pub record BloomFilter : Type 0 where
  pub length_ : ℕ
  pub seed_ : List ℕ
  pub data_ : List ℕ

-- `static_cast<size_t>(s[i])`: a `char` is signed, and widening copies its sign.
unfoldable pub widen : ℕ → ℕ
widen ch = if ltb ch 128 then ch else 2 ^ 64 - 256 + ch

unfoldable pub calc_hash_from : ℕ → Bytes → ℕ → ℕ
calc_hash_from res [] seed = res
calc_hash_from res (ch ∷ s) seed = calc_hash_from ((res * seed % 2 ^ 64 + widen ch) % 2 ^ 64) s seed

unfoldable pub calc_hash : Bytes → ℕ → ℕ
calc_hash s seed = calc_hash_from 0 s seed

-- `Init` with the length and the seeds that it computes and draws.
unfoldable pub init : ℕ → List ℕ → BloomFilter
init length seeds = record {
  length_ = length;
  seed_ = seeds;
  data_ = replicate (length / 64 + 1) 0;
}

-- `key` for one seed: the position of a bit.
unfoldable pub position : BloomFilter → Bytes → ℕ → ℕ
position b s seed = calc_hash s seed % b.length_

-- One round of `Insert`: `data_[key / 64] |= 1ULL << (key & 63)`.
unfoldable pub set_at : List ℕ → ℕ → List ℕ
set_at words key = set words (key / 64) (set_bit (get_or words (key / 64) 0) (key % 64))

unfoldable pub insert_seeds : BloomFilter → Bytes → List ℕ → List ℕ → List ℕ
insert_seeds b s [] words = words
insert_seeds b s (seed ∷ seeds) words = insert_seeds b s seeds (set_at words (position b s seed))

unfoldable pub insert : BloomFilter → Bytes → BloomFilter
insert b s = record b { data_ = insert_seeds b s b.seed_ b.data_ }

-- The test of one round of `Check`.
unfoldable pub bit_at : List ℕ → ℕ → Bool
bit_at words key = test_bit (get_or words (key / 64) 0) (key % 64)

unfoldable pub check_seeds : BloomFilter → Bytes → List ℕ → Bool
check_seeds b s [] = true
check_seeds b s (seed ∷ seeds) =
    if bit_at b.data_ (position b s seed) then check_seeds b s seeds else false

unfoldable pub check : BloomFilter → Bytes → Bool
check b s = check_seeds b s b.seed_

-- The loop that fills a filter when a block is built.
unfoldable pub insert_all : BloomFilter → List Bytes → BloomFilter
insert_all b [] = b
insert_all b (s ∷ keys) = insert_all (insert b s) keys
