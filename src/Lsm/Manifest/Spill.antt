-- ===== src/Lsm/Manifest/Spill.antt =====
-- When a compaction ends after one merge, and what a compaction that spills over does.
use moyuan_kv.Prelude.{
  ltb, if◌then◌else◌, lt→ltb, Bool-cases, length, set, get_or, length-set, Bytes, ℕ, zero, suc, ◌<◌,
  ◌≡◌, refl, inl, inr, Bool, true, false, ◌&&◌, none, some, List, [], ◌∷◌, ◌++◌, arith,
}
use moyuan_kv.Lsm.Entries.{Entry}
use moyuan_kv.Lsm.Sst.{Sst, TableParams, build}
use moyuan_kv.Lsm.Level
use moyuan_kv.Lsm.Level.{Level}
use moyuan_kv.Lsm.Manifest.Reading.{IsValid}
use moyuan_kv.Lsm.Manifest.Positions.{length-with_next}
use moyuan_kv.Lsm.Manifest.Compact.{length-set-set, size_tiered_compaction-Preserves}
use moyuan_kv.Lsm.Manifest.{
  Manifest, no_level, merged_tables, with_next, merge_level, has_id, is_in_use, can_do_compaction,
  compact_level, compact_from, size_tiered_compaction, level_max_binary_size, get,
}

-- Whether level 1 is over its limit.
unfoldable pub is_over : Manifest → Bool
is_over m = ltb (level_max_binary_size 1) (Level.binary_size (get_or m.levels_ 1 no_level))

-- What a compaction with an id that is not in use gives: it answers every key as before.
abbrev pub Compacted : TableParams → ℕ → Manifest → Type 0
Compacted p id m =
    (n : Manifest) × ((size_tiered_compaction p id m ≡ some n)
      × (IsValid n × ((k : Bytes) → get n k ≡ get m k)))

pub compact_from_once :
    (p : TableParams) (id : ℕ) (m : Manifest)
    → is_in_use id m.levels_ ≡ false
    → is_over (merge_level p 0 id m) ≡ false
    → size_tiered_compaction p id m
      ≡ some (if can_do_compaction m && ltb 0 (length m.levels_) then merge_level p 0 id m else m)
unfolding size_tiered_compaction compact_from compact_level can_do_compaction is_over
compact_from_once p id m u o =
    elim (Bool-cases
      (ltb (level_max_binary_size 0) (Level.binary_size (get_or m.levels_ 0 no_level)))) [
        | inr e ↦
            rw e (elim (Bool-cases (ltb 0 (length m.levels_))) [
              | inl l ↦ rw l refl
              | inr l ↦ rw l refl
            ])
        | inl e ↦ elim (Bool-cases (ltb 0 (length m.levels_))) [
          | inr l ↦ rw (e, l) refl
          | inl l ↦ elim (Bool-cases (ltb 1 (length (merge_level p 0 id m).levels_))) [
            | inl k ↦ rw (e, l, u, k, o) refl
            | inr k ↦ rw (e, l, u, k) refl
          ]
        ]
      ]

-- A compaction of a valid manifest with an id that no table in use has, where level 1 is within its
-- limit after the merge of level 0 into it, has a result, which is valid and answers every key as before.
pub size_tiered_compaction-Compacted :
    (p : TableParams) (id : ℕ) (m : Manifest)
    → IsValid m
    → is_in_use id m.levels_ ≡ false
    → is_over (merge_level p 0 id m) ≡ false
    → Compacted p id m
size_tiered_compaction-Compacted p id m v u o =
    let e = compact_from_once p id m u o in (_, (e, size_tiered_compaction-Preserves p id m _ v e))

has_id-append : (id : ℕ) (us ss : List Sst) → has_id id ss ≡ true → has_id id (us ++ ss) ≡ true
unfolding has_id
has_id-append id [] ss h = h
has_id-append id (u ∷ us) ss h = ground (arith, has_id-append id us ss h)

is_in_use-set :
    (id : ℕ) (vs : List Level) (i : ℕ) (v : Level)
    → i < length vs
    → has_id id v.ssts ≡ true
    → is_in_use id (set vs i v) ≡ true
unfolding is_in_use
is_in_use-set id [] i v h e = absurd (omega (arith, h))
is_in_use-set id (w ∷ vs) zero v h e = rw e refl
is_in_use-set id (w ∷ vs) (suc i) v h e =
    ground (arith, is_in_use-set id vs i v (omega (arith, h)) e)

has_id-built :
    (p : TableParams) (id : ℕ) (us ss : List Sst) (es : List Entry)
    → has_id id (us ++ build p es id ∷ ss) ≡ true
unfolding has_id build
has_id-built p id us ss es = has_id-append id us (build p es id ∷ ss) (ground arith)

has_id-merged :
    (p : TableParams) (id : ℕ) (ups downs : List Sst)
    → has_id id (merged_tables p id ups downs) ≡ true
unfolding merged_tables
has_id-merged p id ups downs = has_id-built p id _ _ _

-- A merge leaves its id in use.
merge_level-in_use :
    (p : TableParams) (id : ℕ) (m : Manifest)
    → 0 < length m.levels_
    → is_in_use id (merge_level p 0 id m).levels_ ≡ true
unfolding merge_level
merge_level-in_use p id m h =
    let longer = length-with_next 0 m.levels_ h in
    is_in_use-set id _ 1 _ (omega (arith, longer, length-set (with_next 0 m.levels_) 0 _))
      (has_id-merged p id _ _)

long :
    (p : TableParams) (id : ℕ) (m : Manifest)
    → 0 < length m.levels_
    → ltb 1 (length (merge_level p 0 id m).levels_) ≡ true
unfolding merge_level
long p id m h =
    let longer = length-with_next 0 m.levels_ h in
    lt→ltb 1 _ (omega (arith, longer, length-set-set (with_next 0 m.levels_) 0 1 _ _))

-- A compaction that spills over, which is one of a valid manifest where the merge of level 0 takes
-- level 1 over its limit, overwrites the file of the table that it has just made.
pub size_tiered_compaction-spill :
    (p : TableParams) (id : ℕ) (m : Manifest)
    → IsValid m
    → can_do_compaction m ≡ true
    → is_over (merge_level p 0 id m) ≡ true
    → size_tiered_compaction p id m ≡ none
unfolding size_tiered_compaction compact_from compact_level can_do_compaction is_over
size_tiered_compaction-spill p id m v c o =
    let used = merge_level-in_use p id m v.not_empty in
    let l : ltb 0 (length m.levels_) ≡ true = ground (arith, v.not_empty) in
    elim (Bool-cases (is_in_use id m.levels_)) [
      | inl u ↦ rw (c, l, u) refl
      | inr u ↦ rw (c, l, u, long p id m v.not_empty, o, used) refl
    ]
