-- ===== src/Lsm/Manifest/Merged.antt =====
-- The tables of the next level after a merge: valid, disjoint, and answering as the merged tables do,
-- and the old ones where those are silent.
use moyuan_kv.Prelude.{
  Bool-cases, length, take, drop, All, length-append, All-append, take-append, drop-append,
  All-left, All-right, All-map, All-reverse, Bytes, beq_refl, blt, ℕ, ◌+◌, ◌≡◌, refl, sym, ap, ◌∙◌,
  subst, ◌⊎◌, inl, inr, true, Option, none, some, List, [], ◌∷◌, ◌++◌, reverse, append-nil,
  append_assoc, arith,
}
use moyuan_kv.Lsm.Entries.{
  Entry, Sorted, Sorted-append, append-Sorted, Before, Below, Above, lookup, lookup-append,
  lookup-Below, or_else, Before-append, Before-both, lookup-Above, blt_of_le,
}
use moyuan_kv.Lsm.Sst.{Sst, TableParams, entries, build}
use moyuan_kv.Lsm.Sst.Search.{IsValidSst, build-IsValidSst, entries-build}
use moyuan_kv.Lsm.Level.Search.{all_entries, ValidSsts}
use moyuan_kv.Lsm.Merge.{Cursor, merge}
use moyuan_kv.Lsm.Merge.Sources.{best}
use moyuan_kv.Lsm.Merge.Output.{merge-Merged, merge-All, value_of, Reached}
use moyuan_kv.Lsm.Manifest.{
  min_key_from, max_key_from, merged_tables, push_all, scan, ScanState, Queue,
}
use moyuan_kv.Lsm.Manifest.Scan.{Scanned, scan-Scanned, NotEmpty}
use moyuan_kv.Lsm.Manifest.Ranks.{IsRanked, push_all-IsRanked, best-push_all, push_all-All}
use moyuan_kv.Lsm.Manifest.Range.{Le, KeyNotEmpty, min_key-le, max_key-ge}
use moyuan_kv.Lsm.Manifest.Tables.{
  KeysNotEmpty, all_entries-append, tables-NotEmpty, tables-Sorted, ends-KeyNotEmpty, All-above,
  All-below, low-Below, high-Above, Before-of_bounds, Before-of_Above,
}

abbrev empty_queue : Queue
empty_queue = record { cursors = []; value = 0 }

empty_queue-IsRanked : IsRanked empty_queue
empty_queue-IsRanked = record { sorted = tt; distinct = tt; ranks = tt }

nothing_put_out : (q : List Cursor) → All (λ c. Reached none c.current.key) q
nothing_put_out [] = tt
nothing_put_out (c ∷ cs) = (tt, nothing_put_out cs)

take_parts :
    (ss low rest : List Sst) (n : ℕ)
    → ss ≡ low ++ rest
    → ((low ≡ []) × (n ≡ 0)) ⊎ (n ≡ 0 + length low)
    → take n ss ≡ low
take_parts ss low rest n e (inl (x, y)) = rw (x, y)
take_parts ss low rest n e (inr y) =
    let exact : n ≡ length low = omega arith in rw (e, exact) (take-append low rest)

drop_parts :
    (ss low mid high : List Sst) (n : ℕ)
    → ss ≡ low ++ (mid ++ high)
    → ((high ≡ []) × (n ≡ length ss)) ⊎ (n ≡ 0 + length low + length mid)
    → drop n ss ≡ high
drop_parts ss low mid high n e h =
    let exact : n ≡ length (low ++ mid) = go h in
    rw (e, exact, ← append_assoc low mid high) (drop-append (low ++ mid) high)
  where
    go :
        ((high ≡ []) × (n ≡ length ss)) ⊎ (n ≡ 0 + length low + length mid)
        → n ≡ length (low ++ mid)
    go (inl (x, y)) =
        y
        ∙ ap length e
        ∙ ap (λ h. length (low ++ (mid ++ h))) x
        ∙ ap (λ m. length (low ++ m)) (append-nil mid)
    go (inr y) = omega (arith, length-append low mid)

-- Two finds of which one is missing may be tried in either order.
reorder :
    (l n a h : Option Bytes)
    → (n ≡ none) ⊎ (l ≡ none)
    → or_else l (or_else (or_else n a) h) ≡ or_else n (or_else l (or_else a h))
reorder none none none h e = refl
reorder none none (some x) h e = refl
reorder none (some y) a h e = refl
reorder (some x) none a h e = refl
reorder (some x) (some y) a h (inl e) = cc
reorder (some x) (some y) a h (inr e) = cc

some_key : (es : List Entry) → NotEmpty es → (k : Bytes) × (v : Bytes) × (lookup k es ≡ some v)
unfolding lookup
some_key [] n = absurd n
some_key (e ∷ es) n = (e.key, e.value, rw (beq_refl e.key) refl)

pub NotEmpty-of_lookup : (k v : Bytes) (es : List Entry) → lookup k es ≡ some v → NotEmpty es
unfolding lookup
NotEmpty-of_lookup k v [] e = cc
NotEmpty-of_lookup k v (x ∷ es) e = tt

-- The result of a merge, in terms of the three parts of the next level.
module _ (p : TableParams) (id : ℕ) (ups downs : List Sst) (valid_ups : ValidSsts ups)
    (filled : KeysNotEmpty ups) (valid_downs : ValidSsts downs)
    (disjoint : Sorted (all_entries downs)) where
  abbrev newest : List Sst
  newest = reverse ups

  valid_newest : ValidSsts newest
  valid_newest = All-reverse IsValidSst ups valid_ups

  filled_newest : KeysNotEmpty newest
  filled_newest = All-reverse _ ups filled

  abbrev low_key : Bytes
  low_key = min_key_from [] newest

  abbrev high_key : Bytes
  high_key = max_key_from [] newest

  abbrev start : ScanState
  start = record { insert_l = 0; insert_r = length downs; queue = push_all empty_queue newest }

  abbrev scan_end : ScanState
  scan_end = scan low_key high_key downs 0 start

  scanned : Scanned low_key high_key 0 start downs scan_end
  scanned = scan-Scanned low_key high_key downs 0 start (tables-NotEmpty downs valid_downs) disjoint

  at_least : All (λ e. Le low_key e.key) (all_entries newest)
  at_least = All-above low_key newest valid_newest (
      min_key-le newest
        (All-map newest (λ s h. h.0) (ends-KeyNotEmpty newest valid_newest filled_newest)))

  at_most : All (λ e. Le e.key high_key) (all_entries newest)
  at_most = All-below high_key newest valid_newest (
      max_key-ge newest
        (All-map newest (λ s h. h.1) (ends-KeyNotEmpty newest valid_newest filled_newest)))

  abbrev ranked_queue : Queue
  ranked_queue = push_all start.queue scanned.across

  parts-Sorted :
      Sorted (all_entries scanned.low)
      × Sorted (all_entries scanned.across ++ all_entries scanned.high)
      × Before (all_entries scanned.low) (all_entries scanned.across ++ all_entries scanned.high)
  parts-Sorted =
      Sorted-append (all_entries scanned.low)
        (all_entries scanned.across ++ all_entries scanned.high)
        (subst Sorted
          (ap all_entries scanned.parts
            ∙ all_entries-append scanned.low (scanned.across ++ scanned.high)
            ∙ ap (λ es. all_entries scanned.low ++ es)
                (all_entries-append scanned.across scanned.high))
          disjoint)

  valid_parts : ValidSsts (scanned.low ++ (scanned.across ++ scanned.high))
  valid_parts = subst ValidSsts scanned.parts valid_downs

  valid_low : ValidSsts scanned.low
  valid_low = All-left IsValidSst scanned.low (scanned.across ++ scanned.high) valid_parts

  valid_across : ValidSsts scanned.across
  valid_across =
      All-left IsValidSst scanned.across scanned.high
        (All-right IsValidSst scanned.low (scanned.across ++ scanned.high) valid_parts)

  valid_high : ValidSsts scanned.high
  valid_high =
      All-right IsValidSst scanned.across scanned.high
        (All-right IsValidSst scanned.low (scanned.across ++ scanned.high) valid_parts)

  newest-IsRanked : IsRanked start.queue
  newest-IsRanked =
      push_all-IsRanked empty_queue newest empty_queue-IsRanked (tables-Sorted newest valid_newest)

  ranked_queue-IsRanked : IsRanked ranked_queue
  ranked_queue-IsRanked =
      push_all-IsRanked start.queue scanned.across newest-IsRanked
        (tables-Sorted scanned.across valid_across)

  abbrev merged : List Entry
  merged = merge ranked_queue.cursors

  merged_facts :
      Sorted merged × ((k : Bytes) → lookup k merged ≡ value_of (best k ranked_queue.cursors))
  merged_facts = merge-Merged ranked_queue.cursors (record {
    sorted = ranked_queue-IsRanked.sorted;
    distinct = ranked_queue-IsRanked.distinct;
    reached = nothing_put_out ranked_queue.cursors;
  })

  lookup-merged :
      (k : Bytes)
      → lookup k merged
        ≡ or_else (lookup k (all_entries newest)) (lookup k (all_entries scanned.across))
  lookup-merged k =
      merged_facts.1 k
      ∙ best-push_all k start.queue scanned.across newest-IsRanked
          (tables-Sorted scanned.across valid_across)
      ∙ ap (λ o. or_else o (lookup k (all_entries scanned.across)))
          (best-push_all k empty_queue newest empty_queue-IsRanked
              (tables-Sorted newest valid_newest)
            ∙ unfold best in refl)

  -- A fact about the entries of the merged tables and of the overlapping ones holds of the output.
  merged-All :
      (P : Entry → Type 0)
      → All P (all_entries newest)
      → All P (all_entries scanned.across)
      → All P merged
  merged-All P h k =
      merge-All P ranked_queue.cursors
        (push_all-All P start.queue scanned.across (push_all-All P empty_queue newest tt h) k)

  Before-merged :
      (xs : List Entry)
      → Before xs (all_entries newest)
      → Before xs (all_entries scanned.across)
      → Before xs merged
  Before-merged [] h k = tt
  Before-merged (x ∷ xs) h k =
      (merged-All (λ e. blt x.key e.key ≡ true) h.0 k.0, Before-merged xs h.1 k.1)

  across_parts :
      Sorted (all_entries scanned.across)
      × Sorted (all_entries scanned.high)
      × Before (all_entries scanned.across) (all_entries scanned.high)
  across_parts =
      Sorted-append (all_entries scanned.across) (all_entries scanned.high) parts-Sorted.1

  low_keys : Below low_key (all_entries scanned.low)
  low_keys = low-Below low_key scanned.low valid_low scanned.low_below

  low-Before-merged : Before (all_entries scanned.low) merged
  low-Before-merged =
      Before-merged (all_entries scanned.low)
        (Before-of_bounds low_key (all_entries scanned.low) (all_entries newest) low_keys at_least)
        (Before-append (all_entries scanned.low) (all_entries scanned.across)
          (all_entries scanned.high) parts-Sorted.2).0

  merged-Before_high : Before merged (all_entries scanned.high)
  merged-Before_high =
      merged-All (λ e. Above e.key (all_entries scanned.high))
        (Before-of_Above high_key (all_entries newest) (all_entries scanned.high) at_most
          (high-Above high_key scanned.high valid_high across_parts.1 scanned.high_above))
        across_parts.2

  tables_shape : merged_tables p id ups downs ≡ scanned.low ++ build p merged id ∷ scanned.high
  unfolding merged_tables
  tables_shape =
      rw
        (take_parts downs scanned.low (scanned.across ++ scanned.high) scan_end.insert_l
          scanned.parts scanned.left)
        (rw
          (drop_parts downs scanned.low scanned.across scanned.high scan_end.insert_r scanned.parts
            scanned.right)
          (ap (λ (q : Queue). scanned.low ++ build p (merge q.cursors) id ∷ scanned.high)
            scanned.queue))

  tables_entries :
      all_entries (merged_tables p id ups downs)
      ≡ all_entries scanned.low ++ (merged ++ all_entries scanned.high)
  tables_entries =
      ap all_entries tables_shape
      ∙ all_entries-append scanned.low (build p merged id ∷ scanned.high)
      ∙ ap (λ es. all_entries scanned.low ++ (es ++ all_entries scanned.high))
          (entries-build p merged id)

  pub merged_tables-Sorted : Sorted (all_entries (merged_tables p id ups downs))
  merged_tables-Sorted = rw tables_entries (
      append-Sorted (all_entries scanned.low) (merged ++ all_entries scanned.high) parts-Sorted.0
        (append-Sorted merged (all_entries scanned.high) merged_facts.0 across_parts.1
          merged-Before_high)
        (Before-both (all_entries scanned.low) merged (all_entries scanned.high) low-Before-merged
          (Before-append (all_entries scanned.low) (all_entries scanned.across)
            (all_entries scanned.high) parts-Sorted.2).1))

  -- A key that the merged tables hold is not in a table below their range.
  low_silent :
      (k : Bytes)
      → (lookup k (all_entries newest) ≡ none) ⊎ (lookup k (all_entries scanned.low) ≡ none)
  low_silent k = elim (Bool-cases (blt k low_key)) [
    | inl e ↦ inl (
        lookup-Above k (all_entries newest)
          (All-map (all_entries newest) (λ x h. blt_of_le k low_key x.key e h) at_least))
    | inr e ↦ inr (
        lookup-Below k (all_entries scanned.low)
          (All-map (all_entries scanned.low) (λ x h. blt_of_le x.key low_key k h e) low_keys))
  ]

  lookup-downs :
      (k : Bytes)
      → lookup k (all_entries downs)
        ≡ or_else
            (lookup k (all_entries scanned.low))
            (or_else (lookup k (all_entries scanned.across)) (lookup k (all_entries scanned.high)))
  lookup-downs k =
      ap (λ ss. lookup k (all_entries ss)) scanned.parts
      ∙ ap (lookup k) (all_entries-append scanned.low (scanned.across ++ scanned.high))
      ∙ lookup-append k (all_entries scanned.low) (all_entries (scanned.across ++ scanned.high))
      ∙ ap (or_else (lookup k (all_entries scanned.low))) (
          ap (lookup k) (all_entries-append scanned.across scanned.high)
          ∙ lookup-append k (all_entries scanned.across) (all_entries scanned.high))

  merged-NotEmpty : NotEmpty (all_entries newest) → NotEmpty merged
  merged-NotEmpty n =
      let (k, v, e) = some_key (all_entries newest) n in
      NotEmpty-of_lookup k v merged
        (lookup-merged k ∙ ap (λ o. or_else o (lookup k (all_entries scanned.across))) e)

  build_valid : (es : List Entry) → Sorted es → NotEmpty es → IsValidSst (build p es id)
  build_valid [] s n = absurd n
  build_valid (e ∷ es) s n = build-IsValidSst p e es id s

  -- Where the tables of both levels are valid, the upper ones have no empty key and those of the
  -- lower level are in order and apart, the new tables answer every key as the upper ones do, and
  -- where those are silent as the old tables of the lower level.
  pub lookup-merged_tables :
      (k : Bytes)
      → lookup k (all_entries (merged_tables p id ups downs))
        ≡ or_else (lookup k (all_entries newest)) (lookup k (all_entries downs))
  lookup-merged_tables k =
      ap (lookup k) tables_entries
      ∙ lookup-append k (all_entries scanned.low) (merged ++ all_entries scanned.high)
      ∙ ap (or_else (lookup k (all_entries scanned.low))) (
          lookup-append k merged (all_entries scanned.high)
          ∙ ap (λ o. or_else o (lookup k (all_entries scanned.high))) (lookup-merged k))
      ∙ reorder (lookup k (all_entries scanned.low)) (lookup k (all_entries newest)) _ _
          (low_silent k)
      ∙ ap (or_else (lookup k (all_entries newest))) (sym (lookup-downs k))

  pub merged_tables-ValidSsts :
      NotEmpty (all_entries newest) → ValidSsts (merged_tables p id ups downs)
  merged_tables-ValidSsts n = rw tables_shape (
      All-append IsValidSst scanned.low (build p merged id ∷ scanned.high) valid_low
        (build_valid merged merged_facts.0 (merged-NotEmpty n), valid_high))

  All-filled : (ss : List Sst) → KeysNotEmpty ss → All (λ e. KeyNotEmpty e.key) (all_entries ss)
  All-filled [] h = tt
  All-filled (s ∷ ss) h = All-append _ (entries s) (all_entries ss) h.0 (All-filled ss h.1)

  pub merged_tables-KeysNotEmpty : KeysNotEmpty downs → KeysNotEmpty (merged_tables p id ups downs)
  merged_tables-KeysNotEmpty h =
      let parts : KeysNotEmpty (scanned.low ++ (scanned.across ++ scanned.high)) =
        subst KeysNotEmpty scanned.parts h in
      let rest =
        All-right (λ s. All (λ e. KeyNotEmpty e.key) (entries s)) scanned.low
          (scanned.across ++ scanned.high) parts in
      let across =
        All-left (λ s. All (λ e. KeyNotEmpty e.key) (entries s)) scanned.across scanned.high rest in
      rw tables_shape (
        All-append _ scanned.low (build p merged id ∷ scanned.high)
          (All-left (λ s. All (λ e. KeyNotEmpty e.key) (entries s)) scanned.low
            (scanned.across ++ scanned.high) parts)
          (
            rw (entries-build p merged id) (
                merged-All (λ e. KeyNotEmpty e.key) (All-filled newest filled_newest)
                  (All-filled scanned.across across)),
            All-right (λ s. All (λ e. KeyNotEmpty e.key) (entries s)) scanned.across scanned.high
                rest,
          ))
