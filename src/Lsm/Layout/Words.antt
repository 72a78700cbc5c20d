-- ===== src/Lsm/Layout/Words.antt =====
-- Numbers in memory.
use moyuan_kv.Prelude.{
  length, take, drop, All, length-append, take-append, drop-append, Bytes, ℕ, zero, suc, ◌+◌, ◌*◌,
  ◌/◌, ◌<◌, ◌≡◌, refl, sym, ap, ap₂, ◌∙◌, List, [], ◌∷◌, ◌++◌, append_assoc, arith,
}
use moyuan_kv.Lsm.Layout.{write_word, read_word, write_size, read_size, write_sizes, read_sizes}

-- 256 ^ n
unfoldable pub bound : ℕ → ℕ
bound zero = 1
bound (suc n) = 256 * bound n

pub length-write_word : (n v : ℕ) → length (write_word n v) ≡ n
unfolding write_word
length-write_word zero v = refl
length-write_word (suc n) v = ap suc (length-write_word n (v / 256))

pub read_word-write_word :
    (n v : ℕ) (s : Bytes) → v < bound n → read_word n (write_word n v ++ s) ≡ v
unfolding write_word read_word bound
read_word-write_word zero v s h = omega (arith, h)
read_word-write_word (suc n) v s h =
    omega (arith, read_word-write_word n (v / 256) s (omega (arith, h)))

abbrev pub IsSize : ℕ → Type 0
IsSize n = n < 18446744073709551616

pub read_size-write_size : (v : ℕ) (s : Bytes) → IsSize v → read_size (write_size v ++ s) ≡ v
unfolding bound
read_size-write_size v s h = read_word-write_word 8 v s h

pub drop-write_size : (v : ℕ) (s : Bytes) → drop 8 (write_size v ++ s) ≡ s
drop-write_size v s =
    ap (λ (n : ℕ). drop n (write_size v ++ s)) (sym (length-write_word 8 v))
    ∙ drop-append (write_size v) s

pub length-write_sizes : (vs : List ℕ) → length (write_sizes vs) ≡ 8 * length vs
unfolding write_sizes
length-write_sizes [] = refl
length-write_sizes (v ∷ vs) = omega (
  arith,
  length-append (write_size v) (write_sizes vs),
  length-write_word 8 v,
  length-write_sizes vs,
)

pub read_sizes-write_sizes :
    (vs : List ℕ) (s : Bytes) → All IsSize vs → read_sizes (length vs) (write_sizes vs ++ s) ≡ vs
unfolding write_sizes read_sizes
read_sizes-write_sizes [] s h = refl
read_sizes-write_sizes (v ∷ vs) s h = rw (append_assoc (write_size v) (write_sizes vs) s) (
    ap₂ ◌∷◌ (read_size-write_size v (write_sizes vs ++ s) h.0) (
      ap (read_sizes (length vs)) (drop-write_size v (write_sizes vs ++ s))
      ∙ read_sizes-write_sizes vs s h.1))

-- Behind a part of known length.
pub drop-part : (n : ℕ) (xs ys : Bytes) → length xs ≡ n → drop n (xs ++ ys) ≡ ys
drop-part n xs ys e = ap (λ (m : ℕ). drop m (xs ++ ys)) (sym e) ∙ drop-append xs ys

pub take-part : (n : ℕ) (xs ys : Bytes) → length xs ≡ n → take n (xs ++ ys) ≡ xs
take-part n xs ys e = ap (λ (m : ℕ). take m (xs ++ ys)) (sym e) ∙ take-append xs ys

pub drop-two : (a b : ℕ) (s : Bytes) → drop 16 (write_size a ++ (write_size b ++ s)) ≡ s
drop-two a b s =
    ap (drop 16) (sym (append_assoc (write_size a) (write_size b) s))
    ∙ drop-part 16 (write_size a ++ write_size b) s (
        length-append (write_size a) (write_size b)
        ∙ ap₂ ◌+◌ (length-write_word 8 a) (length-write_word 8 b))
