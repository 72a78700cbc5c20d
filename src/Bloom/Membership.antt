-- ===== src/Bloom/Membership.antt =====
-- A filter never denies a key that was inserted.
use moyuan_kv.Prelude.{
  ◌==◌, if◌then◌else◌, length, get_or, All, length-set, get_or-set_self, get_or-set,
  length-replicate, Bytes, ℕ, zero, suc, ◌+◌, ◌*◌, ◌/◌, ◌%◌, ◌<◌, ◌≡◌, refl, sym, ap, ◌∙◌, subst,
  inl, inr, true, List, [], ◌∷◌, arith,
}
use native.Mathlib.Nat.{mod-lt}
use moyuan_kv.Bloom.{
  calc_hash, BloomFilter, set_bit, test_bit, position, set_at, bit_at, insert_seeds, insert,
  check_seeds, check, insert_all, init,
}

test_bit-set_bit_self : (w i : ℕ) → test_bit (set_bit w i) i ≡ true
unfolding set_bit test_bit
test_bit-set_bit_self w zero = ground arith
test_bit-set_bit_self w (suc i) =
    let half : (set_bit (w / 2) i * 2 + w % 2) / 2 ≡ set_bit (w / 2) i = omega arith in
    rw half (test_bit-set_bit_self (w / 2) i)

-- Setting a bit clears none.
test_bit-set_bit : (w i j : ℕ) → test_bit w j ≡ true → test_bit (set_bit w i) j ≡ true
unfolding set_bit test_bit
test_bit-set_bit w zero zero h = ground arith
test_bit-set_bit w zero (suc j) h =
    let half : (if w % 2 == 1 then w else w + 1) / 2 ≡ w / 2 = ground arith in rw half h
test_bit-set_bit w (suc i) zero h = ground arith
test_bit-set_bit w (suc i) (suc j) h =
    let half : (set_bit (w / 2) i * 2 + w % 2) / 2 ≡ set_bit (w / 2) i = omega arith in
    rw half (test_bit-set_bit (w / 2) i j h)

-- The array covers every position below the length.
pub record IsReady (b : BloomFilter) : Type 0 where
  pub positive : 0 < b.length_
  pub covers : length b.data_ ≡ b.length_ / 64 + 1

position-lt :
    (b : BloomFilter) (s : Bytes) (seed : ℕ) → IsReady b → position b s seed / 64 < length b.data_
unfolding position
position-lt b s seed r = omega (arith, mod-lt (calc_hash s seed) r.positive)

-- Every bit of `words` is set in `words'`.
abbrev pub Covers : List ℕ → List ℕ → Type 0
Covers words words' = (key : ℕ) → bit_at words key ≡ true → bit_at words' key ≡ true

bit_at-set_at : (words : List ℕ) (key : ℕ) → Covers words (set_at words key)
unfolding bit_at set_at
bit_at-set_at words key j h =
    elim (get_or-set words (key / 64) (j / 64) (set_bit (get_or words (key / 64) 0) (key % 64)) 0) [
      | inl e ↦ rw e h
      | inr (same, e) ↦
          rw e (test_bit-set_bit (get_or words (key / 64) 0) (key % 64) (j % 64) (rw same h))
    ]

bit_at-set_at_self :
    (words : List ℕ) (key : ℕ) → key / 64 < length words → bit_at (set_at words key) key ≡ true
unfolding bit_at set_at
bit_at-set_at_self words key h =
    rw (get_or-set_self words (key / 64) (set_bit (get_or words (key / 64) 0) (key % 64)) 0 h)
      (test_bit-set_bit_self (get_or words (key / 64) 0) (key % 64))

insert_seeds-Covers :
    (b : BloomFilter) (s : Bytes) (seeds words : List ℕ)
    → Covers words (insert_seeds b s seeds words)
unfolding insert_seeds
insert_seeds-Covers b s [] words j h = h
insert_seeds-Covers b s (seed ∷ seeds) words j h =
    insert_seeds-Covers b s seeds (set_at words (position b s seed)) j
      (bit_at-set_at words (position b s seed) j h)

length-set_at : (words : List ℕ) (key : ℕ) → length (set_at words key) ≡ length words
unfolding set_at
length-set_at words key = length-set words (key / 64) _

length-insert_seeds :
    (b : BloomFilter) (s : Bytes) (seeds words : List ℕ)
    → length (insert_seeds b s seeds words) ≡ length words
unfolding insert_seeds
length-insert_seeds b s [] words = refl
length-insert_seeds b s (seed ∷ seeds) words =
    length-insert_seeds b s seeds (set_at words (position b s seed))
    ∙ length-set_at words (position b s seed)

-- `Check` against an array that may hold more bits than the filter's own.
check_seeds-insert_seeds :
    (b : BloomFilter) (s : Bytes) (seeds words : List ℕ)
    → IsReady b
    → length words ≡ length b.data_
    → (c : BloomFilter) → c.length_ ≡ b.length_
    → Covers (insert_seeds b s seeds words) c.data_
    → check_seeds c s seeds ≡ true
unfolding check_seeds insert_seeds
check_seeds-insert_seeds b s [] words r n c e k = refl
check_seeds-insert_seeds b s (seed ∷ seeds) words r n c e k =
    let key = position b s seed in
    let hit = k key (
      insert_seeds-Covers b s seeds (set_at words key) key
        (bit_at-set_at_self words key (omega (arith, position-lt b s seed r)))) in
    let same : position c s seed ≡ key = unfold position in ap (λ n. calc_hash s seed % n) e in
    rw (same, hit)
      (check_seeds-insert_seeds b s seeds (set_at words key) r (length-set_at words key ∙ n) c e k)

insert-IsReady : (b : BloomFilter) (s : Bytes) → IsReady b → IsReady (insert b s)
unfolding insert
insert-IsReady b s r = record {
  positive = r.positive;
  covers = length-insert_seeds b s b.seed_ b.data_ ∙ r.covers;
}

-- What stays as more keys are inserted: the length, the seeds, and every bit that is set.
record Extends (b c : BloomFilter) : Type 0 where
  same_length : c.length_ ≡ b.length_
  same_seeds : c.seed_ ≡ b.seed_
  more : Covers b.data_ c.data_

insert_all-Extends : (b : BloomFilter) (keys : List Bytes) → Extends b (insert_all b keys)
unfolding insert_all insert
insert_all-Extends b [] = record { same_length = refl; same_seeds = refl; more = λ j h. h }
insert_all-Extends b (s ∷ keys) =
    let rest = insert_all-Extends (insert b s) keys in
    record {
      same_length = rest.same_length;
      same_seeds = rest.same_seeds;
      more = λ j h. rest.more j (insert_seeds-Covers b s b.seed_ b.data_ j h);
    }

check-insert-Extends :
    (b c : BloomFilter) (s : Bytes) → IsReady b → Extends (insert b s) c → check c s ≡ true
unfolding check insert
check-insert-Extends b c s r x =
    subst (λ seeds. check_seeds c s seeds ≡ true) (sym x.same_seeds)
      (check_seeds-insert_seeds b s b.seed_ b.data_ r refl c x.same_length x.more)

-- No false negative: once a ready filter has taken in some keys, `Check` answers true for each.
pub check-insert_all :
    (b : BloomFilter) (keys : List Bytes)
    → IsReady b
    → All (λ s. check (insert_all b keys) s ≡ true) keys
unfolding insert_all
check-insert_all b [] r = tt
check-insert_all b (s ∷ keys) r = (
  check-insert-Extends b (insert_all (insert b s) keys) s r (insert_all-Extends (insert b s) keys),
  check-insert_all (insert b s) keys (insert-IsReady b s r),
)

-- `Init` gives a ready filter.
pub init-IsReady : (n : ℕ) (seeds : List ℕ) → 0 < n → IsReady (init n seeds)
unfolding init
init-IsReady n seeds h = record { positive = h; covers = length-replicate (n / 64 + 1) 0 }
