-- ===== src/Lsm/Block/Search.antt =====
-- `DataBlockIndex::Get` is the sequential search, on sorted entries.
use moyuan_kv.Prelude.{
  Bool-cases, length, get_or, All, Bytes, beq_comm, beq→eq, blt_trans, beq, blt, ℕ, zero, suc, ◌≤◌,
  ◌<◌, ◌≡◌, refl, sym, ◌∙◌, inl, inr, true, false, none, List, [], ◌∷◌, arith,
}
use moyuan_kv.Bloom.{check}
use moyuan_kv.Lsm.Entries.{
  Entry, Sorted, Above, lookup, lookup-Above, Above-trans, bne_of_blt, blt_of_ne,
}
use moyuan_kv.Lsm.Bisect.{IsMonotone, Splits, bisect-Splits, Splits-start}
use moyuan_kv.Lsm.Block.{DataBlock, no_entry, key_below, read_at, get}

Above-get :
    (k : Bytes) (es : List Entry) (i : ℕ)
    → Above k es
    → i < length es
    → blt k (get_or es i no_entry).key ≡ true
Above-get k [] i a h = elim h [ ]
Above-get k (e ∷ es) zero a h = a.0
Above-get k (e ∷ es) (suc i) a h = Above-get k es i a.1 (omega arith)

-- An entry before one that is below `k` is below it too.
key_below-Sorted :
    (es : List Entry) (k : Bytes) (i j : ℕ)
    → Sorted es
    → i ≤ j
    → j < length es
    → key_below es k j ≡ true
    → key_below es k i ≡ true
key_below-Sorted [] k i j s h n e = elim n [ ]
key_below-Sorted (x ∷ es) k zero zero s h n e = e
key_below-Sorted (x ∷ es) k zero (suc j) s h n e =
    blt_trans x.key (get_or es j no_entry).key k (Above-get x.key es j s.0 (omega arith)) e
key_below-Sorted (x ∷ es) k (suc i) zero s h n e = elim h [ ]
key_below-Sorted (x ∷ es) k (suc i) (suc j) s h n e =
    key_below-Sorted es k i j s.1 (omega arith) (omega arith) e

key_below-IsMonotone :
    (es : List Entry) (k : Bytes) → Sorted es → IsMonotone (key_below es k) (length es)
key_below-IsMonotone es k s = record { down = λ i j. key_below-Sorted es k i j s }

read_at_here :
    (x : Entry) (es : List Entry) (k : Bytes)
    → Above x.key es
    → blt x.key k ≡ false
    → read_at (x ∷ es) k 0 ≡ lookup k (x ∷ es)
unfolding read_at lookup
read_at_here x es k a h = elim (Bool-cases (beq x.key k)) [
  | inl e ↦ ground (arith, e)
  | inr e ↦ ground (
    arith,
    e,
    lookup-Above k es (Above-trans k x.key es (blt_of_ne k x.key (beq_comm k x.key ∙ e) h) a),
  )
]

read_at_later :
    (x : Entry) (es : List Entry) (k : Bytes) (r : ℕ) → read_at (x ∷ es) k (suc r) ≡ read_at es k r
unfolding read_at
read_at_later x es k r = ground arith

-- A position that splits the keys is where the sequential search ends.
read_at-lookup :
    (es : List Entry) (k : Bytes) (r : ℕ)
    → Sorted es
    → Splits (key_below es k) (length es) r r
    → read_at es k r ≡ lookup k es
read_at-lookup [] k r s p = unfold read_at lookup in ground (arith, p.bound)
read_at-lookup (x ∷ es) k zero s p = read_at_here x es k s.0 (p.after 0 (omega arith) (omega arith))
read_at-lookup (x ∷ es) k (suc r) s p =
    read_at_later x es k r
    ∙ read_at-lookup es k r s.1 (record {
      order = omega arith;
      bound = omega (arith, p.bound);
      before = λ i h. p.before (suc i) (omega arith);
      after = λ i h n. p.after (suc i) (omega arith) (omega arith);
    })
    ∙ sym (unfold lookup in rw (bne_of_blt x.key k (p.before 0 (omega arith))))

-- The entries are sorted, and the filter knows every key.
pub record IsValidBlock (b : DataBlock) : Type 0 where
  pub sorted : Sorted b.data_index
  pub hashed : All (λ e. check b.bloom_filter e.key ≡ true) b.data_index

-- A key that the filter denies is not among the entries.
lookup_unhashed :
    (k : Bytes) (b : DataBlock) (es : List Entry)
    → All (λ e. check b.bloom_filter e.key ≡ true) es
    → check b.bloom_filter k ≡ false
    → lookup k es ≡ none
unfolding lookup
lookup_unhashed k b [] h n = refl
lookup_unhashed k b (e ∷ es) h n = elim (Bool-cases (beq e.key k)) [
  | inl same ↦ absurd (ground (arith, beq→eq e.key k same, h.0))
  | inr other ↦ rw other (lookup_unhashed k b es h.1 n)
]

-- On a valid block `Get` returns the value that a sequential search finds, and nothing for a key
-- that is not there.
pub get-lookup : (b : DataBlock) (k : Bytes) → IsValidBlock b → get b k ≡ lookup k b.data_index
unfolding get
get-lookup b k v =
    let es = b.data_index in
    elim (Bool-cases (check b.bloom_filter k)) [
      | inr out ↦ rw out (sym (lookup_unhashed k b es v.hashed out))
      | inl maybe ↦ rw maybe (
          read_at-lookup es k _ v.sorted (
            bisect-Splits (suc (length es)) (key_below es k) (length es) 0 (length es)
              (key_below-IsMonotone es k v.sorted) (omega arith) (Splits-start _ _)))
    ]
