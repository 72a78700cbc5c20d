-- ===== src/Lsm/Manifest/Tables.antt =====
-- Facts on sequences of tables that the compaction of a level needs: bounds on all keys from bounds on
-- the first or the last key of each table.
use moyuan_kv.Prelude.{
  All, All-append, All-map, Bytes, blt, ◌≡◌, refl, sym, ap, ◌∙◌, true, List, [], ◌∷◌, ◌++◌,
  append_assoc,
}
use moyuan_kv.Lsm.Entries.{
  Entry, Sorted, Before, Below, Above, blt_of_le_lt, Above-trans, blt_of_le,
}
use moyuan_kv.Lsm.Sst.{Sst, entries}
use moyuan_kv.Lsm.Level.Search.{all_entries, ValidSsts}
use moyuan_kv.Lsm.Manifest.{begin_key, end_key, begin_key_of}
use moyuan_kv.Lsm.Manifest.Scan.{
  NotEmpty, NotEmpty-of_start, HighFrom, begin_All, end_All, begin_bound, end_bound,
}
use moyuan_kv.Lsm.Manifest.Range.{Le, Le_trans, KeyNotEmpty}

-- No table holds the empty key.
abbrev pub KeysNotEmpty : List Sst → Type 0
KeysNotEmpty ss = All (λ s. All (λ e. KeyNotEmpty e.key) (entries s)) ss

pub all_entries-append :
    (ss ts : List Sst) → all_entries (ss ++ ts) ≡ all_entries ss ++ all_entries ts
all_entries-append [] ts = refl
all_entries-append (s ∷ ss) ts =
    ap (λ es. entries s ++ es) (all_entries-append ss ts)
    ∙ sym (append_assoc (entries s) (all_entries ss) (all_entries ts))

pub tables-NotEmpty : (ss : List Sst) → ValidSsts ss → All (λ s. NotEmpty (entries s)) ss
tables-NotEmpty [] v = tt
tables-NotEmpty (s ∷ ss) v = (NotEmpty-of_start _ (entries s) v.0.not_empty, tables-NotEmpty ss v.1)

pub tables-Sorted : (ss : List Sst) → ValidSsts ss → All (λ s. Sorted (entries s)) ss
tables-Sorted [] v = tt
tables-Sorted (s ∷ ss) v = (v.0.sorted, tables-Sorted ss v.1)

pub ends-KeyNotEmpty :
    (ss : List Sst)
    → ValidSsts ss
    → KeysNotEmpty ss
    → All (λ s. KeyNotEmpty (begin_key s) × KeyNotEmpty (end_key s)) ss
unfolding begin_key end_key
ends-KeyNotEmpty [] v n = tt
ends-KeyNotEmpty (s ∷ ss) v n =
    let filled = NotEmpty-of_start _ (entries s) v.0.not_empty in
    (
      (begin_All KeyNotEmpty (entries s) filled n.0, end_All KeyNotEmpty (entries s) filled n.0),
      ends-KeyNotEmpty ss v.1 n.1,
    )

-- Bounds on the ends of tables are bounds on all their keys.
pub All-above :
    (m : Bytes) (ss : List Sst)
    → ValidSsts ss
    → All (λ s. Le m (begin_key s)) ss
    → All (λ e. Le m e.key) (all_entries ss)
unfolding begin_key
All-above m [] v h = tt
All-above m (s ∷ ss) v h =
    All-append _ (entries s) (all_entries ss)
      (All-map (entries s) (λ e b. Le_trans m _ e.key h.0 b) (begin_bound (entries s) v.0.sorted))
      (All-above m ss v.1 h.1)

pub All-below :
    (m : Bytes) (ss : List Sst)
    → ValidSsts ss
    → All (λ s. Le (end_key s) m) ss
    → All (λ e. Le e.key m) (all_entries ss)
unfolding end_key
All-below m [] v h = tt
All-below m (s ∷ ss) v h =
    All-append _ (entries s) (all_entries ss)
      (All-map (entries s) (λ e b. Le_trans e.key _ m b h.0) (end_bound (entries s) v.0.sorted))
      (All-below m ss v.1 h.1)

pub low-Below :
    (m : Bytes) (ss : List Sst)
    → ValidSsts ss
    → All (λ s. blt (end_key s) m ≡ true) ss
    → Below m (all_entries ss)
unfolding end_key
low-Below m [] v h = tt
low-Below m (s ∷ ss) v h =
    All-append _ (entries s) (all_entries ss)
      (All-map (entries s) (λ e b. blt_of_le_lt e.key _ m b h.0) (end_bound (entries s) v.0.sorted))
      (low-Below m ss v.1 h.1)

pub high-Above :
    (m : Bytes) (ss : List Sst)
    → ValidSsts ss
    → Sorted (all_entries ss)
    → HighFrom m ss
    → Above m (all_entries ss)
unfolding begin_key
high-Above m [] v s h = tt
high-Above m (t ∷ ts) v s h = start (entries t) (NotEmpty-of_start _ (entries t) v.0.not_empty) s h
  where
    start :
        (es : List Entry)
        → NotEmpty es
        → Sorted (es ++ all_entries ts)
        → blt m (begin_key_of es) ≡ true
        → Above m (es ++ all_entries ts)
    start [] n s h = absurd n
    start (e ∷ es) n s h = (h, Above-trans m e.key (es ++ all_entries ts) h s.0)

-- Entries at or above a bound come after entries below it.
pub Before-of_bounds :
    (m : Bytes) (xs ys : List Entry) → Below m xs → All (λ e. Le m e.key) ys → Before xs ys
Before-of_bounds m [] ys b l = tt
Before-of_bounds m (x ∷ xs) ys b l =
    (All-map ys (λ e k. blt_of_le x.key m e.key b.0 k) l, Before-of_bounds m xs ys b.1 l)

pub Before-of_Above :
    (m : Bytes) (xs ys : List Entry) → All (λ e. Le e.key m) xs → Above m ys → Before xs ys
Before-of_Above m [] ys b a = tt
Before-of_Above m (x ∷ xs) ys b a =
    (All-map ys (λ e k. blt_of_le_lt x.key m e.key b.0 k) a, Before-of_Above m xs ys b.1 a)
