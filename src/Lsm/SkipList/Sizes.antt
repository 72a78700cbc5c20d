-- ===== src/Lsm/SkipList/Sizes.antt =====
-- The counters of a skip list, and the rounds of its loops.
use moyuan_kv.Prelude.{
  Bool-cases, Option-cases, length, Bytes, beq→eq, beq, blt, ℕ, ◌+◌, ◌-◌, ◌≤◌, ◌<◌, ◌≡◌, sym, ap,
  ◌∙◌, inl, inr, Option, none, some, List, [], ◌∷◌, arith,
}
use mathlib.Core.Option
use moyuan_kv.Lsm.Entries.{Entry, Sorted, lookup, lookup-Above}
use moyuan_kv.Lsm.Insertion.{insert, Above-below}
use moyuan_kv.Lsm.SkipList.{SkipList, wrap, update, insert_node, put, smaller, matching, entries}
use moyuan_kv.Lsm.SkipList.Contents.{
  IsValid, cut, prevs, prevs-Located, linked_cut, next-Located, get-entries, get_at, descend-prevs,
  entries-Sorted,
}
use moyuan_kv.Lsm.SkipList.Walk.{smaller-first}
use moyuan_kv.Lsm.SkipList.Puts.{put-Written, put_at}

-- On each level the inner loop ends because the next node, if there is one, has no smaller key, and
-- not because its rounds are used up.
pub loop_ends :
    (t : SkipList) (w : IsValid t) (k : Bytes) (l : ℕ)
    → l < (t.cells 0).height
    → smaller t.cells k ((t.cells (prevs t w k l)).nexts l) ≡ none
loop_ends t w k l h =
    let place = cut t w k in
    ap (smaller t.cells k) (
      next-Located t.cells k 0 l (prevs t w k l) place.0 place.1 (linked_cut t w k)
        (prevs-Located t w k l h))
    ∙ smaller-first t.cells k l place.1 place.4

-- The bytes of the keys and values.
unfoldable pub total : List Entry → ℕ
total [] = 0
total (e ∷ es) = length e.key + length e.value + total es

-- The bytes that an overwritten value frees, with its key.
unfoldable freed : Bytes → Option Bytes → ℕ
freed k none = 0
freed k (some v) = length k + length v

total-insert :
    (k v : Bytes) (es : List Entry)
    → Sorted es
    → total (insert k v es) + freed k (lookup k es) ≡ total es + length k + length v
unfolding total freed insert lookup
total-insert k v [] s = omega arith
total-insert k v (e ∷ es) s = elim (Bool-cases (beq e.key k)) [
  | inl f ↦ rw f (omega (arith, ap length (beq→eq e.key k f)))
  | inr f ↦ rw f (elim (Bool-cases (blt k e.key)) [
    | inl b ↦ rw (b, lookup-Above k es (Above-below k e.key es b s.0)) (omega arith)
    | inr b ↦ rw b (omega (arith, total-insert k v es s.1))
  ])
]

freed_le : (k : Bytes) (es : List Entry) → freed k (lookup k es) ≤ total es
unfolding total freed lookup
freed_le k [] = omega arith
freed_le k (e ∷ es) = elim (Bool-cases (beq e.key k)) [
  | inl f ↦ rw f (omega (arith, ap length (beq→eq e.key k f)))
  | inr f ↦ rw f (omega (arith, freed_le k es))
]

pub get-matching :
    (t : SkipList) (k : Bytes) (w : IsValid t) (o : Option ℕ)
    → matching t.cells k ((t.cells (prevs t w k 0)).nexts 0) ≡ o
    → lookup k (entries t) ≡ Option.map (λ a. (t.cells a).value) o
get-matching t k w o e =
    sym (get-entries t k w)
    ∙ get_at t k (prevs t w k 0) (descend-prevs t k w)
    ∙ ap (Option.map (λ a. (t.cells a).value)) e

wrap_insert :
    (size key value now : ℕ)
    → now ≡ size + key + value
    → now < 18446744073709551616
    → wrap (size + (key + value)) ≡ now
wrap_insert size key value now e h = omega (arith, e, h)

wrap_update :
    (size value old now : ℕ)
    → now + old ≡ size + value
    → old < 18446744073709551616
    → now < 18446744073709551616
    → wrap (size + value + (18446744073709551616 - old)) ≡ now
wrap_update size value old now e h j = omega (arith, e, h, j)

-- A write to a valid skip list keeps `binary_size` equal to the bytes of all keys and values, as long
-- as these are fewer than 2 ^ 64: the unsigned difference that an overwrite adds comes out right also
-- when the value becomes shorter.
pub binary_size-put :
    (draws : ℕ) (k v : Bytes) (t : SkipList)
    → IsValid t
    → t.binary_size ≡ total (entries t)
    → total (entries t) < 18446744073709551616
    → total (entries (put draws k v t)) < 18446744073709551616
    → (put draws k v t).binary_size ≡ total (entries (put draws k v t))
unfolding update insert_node freed
binary_size-put draws k v t w b h j =
    let after = ap total (put-Written draws k v t w).1 in
    let added = total-insert k v (entries t) (entries-Sorted t w) in
    let bound = freed_le k (entries t) in
    elim (Option-cases (matching t.cells k ((t.cells (prevs t w k 0)).nexts 0))) [
      | inl m ↦
          let free : freed k (lookup k (entries t)) ≡ 0 =
            ap (freed k) (get-matching t k w none m) in
          ap (λ (u : SkipList). u.binary_size) (put_at t draws k v w none m)
          ∙ wrap_insert _ _ _ _ (omega (arith, b, after, added, free)) j
      | inr (q, m) ↦
          let free : freed k (lookup k (entries t)) ≡ length k + length (t.cells q).value =
            ap (freed k) (get-matching t k w (some q) m) in
          ap (λ (u : SkipList). u.binary_size) (put_at t draws k v w (some q) m)
          ∙ wrap_update _ _ _ _ (omega (arith, b, after, added, free))
              (omega (arith, bound, free, h)) j
    ]
