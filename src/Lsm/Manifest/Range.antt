-- ===== src/Lsm/Manifest/Range.antt =====
-- `min_key` and `max_key` bound the keys of the merged tables, as long as no key is empty.
use moyuan_kv.Prelude.{
  Bool-cases, All, Bytes, blt_irrefl, beq, blt, ◌≡◌, inl, inr, false, List, [], ◌∷◌,
}
use moyuan_kv.Lsm.Entries.{blt_of_le_lt, blt_asym}
use moyuan_kv.Lsm.Sst.{Sst}
use moyuan_kv.Lsm.Manifest.{begin_key, end_key, widen_min, widen_max, min_key_from, max_key_from}

-- `a ≤ b`.
abbrev pub Le : Bytes → Bytes → Type 0
Le a b = blt b a ≡ false

pub Le_trans : (a b c : Bytes) → Le a b → Le b c → Le a c
Le_trans a b c h k = elim (Bool-cases (blt c a)) [ inl e ↦ cc (blt_of_le_lt b c a k e) | inr e ↦ e ]

abbrev pub KeyNotEmpty : Bytes → Type 0
KeyNotEmpty k = beq k [] ≡ false

widen_min_le :
    (m : Bytes) (s : Sst)
    → KeyNotEmpty m
    → KeyNotEmpty (begin_key s)
    → Le (widen_min m s) m × Le (widen_min m s) (begin_key s) × KeyNotEmpty (widen_min m s)
unfolding widen_min
widen_min_le m s n b = elim (Bool-cases (blt (begin_key s) m)) [
  | inl e ↦ rw (n, e) (blt_asym (begin_key s) m e, blt_irrefl (begin_key s), b)
  | inr e ↦ rw (n, e) (blt_irrefl m, e, n)
]

min_key_from_le :
    (m : Bytes) (ss : List Sst)
    → KeyNotEmpty m
    → All (λ s. KeyNotEmpty (begin_key s)) ss
    → Le (min_key_from m ss) m × All (λ s. Le (min_key_from m ss) (begin_key s)) ss
unfolding min_key_from
min_key_from_le m [] n v = (blt_irrefl m, tt)
min_key_from_le m (s ∷ ss) n v =
    let w = widen_min_le m s n v.0 in
    let ih = min_key_from_le (widen_min m s) ss w.2 v.1 in
    (Le_trans _ _ _ ih.0 w.0, (Le_trans _ _ _ ih.0 w.1, ih.1))

-- The least key is at most the first key of each table.
pub min_key-le :
    (ss : List Sst)
    → All (λ s. KeyNotEmpty (begin_key s)) ss
    → All (λ s. Le (min_key_from [] ss) (begin_key s)) ss
unfolding min_key_from widen_min beq
min_key-le [] v = tt
min_key-le (s ∷ ss) v = min_key_from_le (begin_key s) ss v.0 v.1

widen_max_le :
    (m : Bytes) (s : Sst)
    → KeyNotEmpty m
    → KeyNotEmpty (end_key s)
    → Le m (widen_max m s) × Le (end_key s) (widen_max m s) × KeyNotEmpty (widen_max m s)
unfolding widen_max
widen_max_le m s n b = elim (Bool-cases (blt m (end_key s))) [
  | inl e ↦ rw (n, e) (blt_asym m (end_key s) e, blt_irrefl (end_key s), b)
  | inr e ↦ rw (n, e) (blt_irrefl m, e, n)
]

max_key_from_le :
    (m : Bytes) (ss : List Sst)
    → KeyNotEmpty m
    → All (λ s. KeyNotEmpty (end_key s)) ss
    → Le m (max_key_from m ss) × All (λ s. Le (end_key s) (max_key_from m ss)) ss
unfolding max_key_from
max_key_from_le m [] n v = (blt_irrefl m, tt)
max_key_from_le m (s ∷ ss) n v =
    let w = widen_max_le m s n v.0 in
    let ih = max_key_from_le (widen_max m s) ss w.2 v.1 in
    (Le_trans _ _ _ w.0 ih.0, (Le_trans _ _ _ w.1 ih.0, ih.1))

-- The greatest key is at least the last key of each table.
pub max_key-ge :
    (ss : List Sst)
    → All (λ s. KeyNotEmpty (end_key s)) ss
    → All (λ s. Le (end_key s) (max_key_from [] ss)) ss
unfolding max_key_from widen_max beq
max_key-ge [] v = tt
max_key-ge (s ∷ ss) v = max_key_from_le (end_key s) ss v.0 v.1
