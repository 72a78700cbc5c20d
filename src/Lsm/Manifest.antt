-- ===== src/Lsm/Manifest.antt =====
-- `Manifest` of mokv/lsm/manifest.hpp: the levels of tables, reading through them, and size-tiered
-- compaction.
pub mod Scan
pub mod Ranks
pub mod Range
pub mod Tables
pub mod Merged
pub mod Reading
pub mod Positions
pub mod Compact
pub mod Insert
pub mod Spill
pub mod File
use moyuan_kv.Prelude.{
  ltb, ◌==◌, if◌then◌else◌, length, set, get_or, take, drop, Bytes, beq, blt, ℕ, zero, suc, ◌+◌,
  ◌*◌, Bool, true, false, ◌&&◌, ◌||◌, Option, none, some, List, [], ◌∷◌, ◌++◌, reverse,
}
use moyuan_kv.Lsm.Entries.{Entry}
use moyuan_kv.Lsm.Sst.{Sst, TableParams, entries, build}
use moyuan_kv.Lsm.Level
use moyuan_kv.Lsm.Level.{Level}
use moyuan_kv.Lsm.Merge.{Cursor, emplace, merge}

pub record Manifest : Type 0 where
  pub version_ : ℕ
  pub levels_ : List Level
  pub max_sst_id_ : ℕ

-- The constructor where no manifest file exists.
abbrev pub new_manifest : Manifest
new_manifest = record {
  version_ = 1;
  levels_ = record { level = 0; ssts = [] } ∷ [];
  max_sst_id_ = 0;
}

-- The loop of `Get`, from level 0 down.
unfoldable pub read_levels : List Level → Bytes → Option Bytes
read_levels [] key = none
read_levels (v ∷ vs) key = elim (Level.get v key) [
  | none ↦ read_levels vs key
  | some value ↦ some value
]

unfoldable pub get : Manifest → Bytes → Option Bytes
get m key = read_levels m.levels_ key

-- `levels_.begin()->Insert(sst)`; there is a level 0 from the constructor on.
unfoldable pub insert_first : List Level → Sst → List Level
insert_first [] s = []
insert_first (v ∷ vs) s = Level.insert v s ∷ vs

-- `InsertAndUpdate`: a copy with the next version number that has the table.
unfoldable pub insert_and_update : Manifest → Sst → Manifest
insert_and_update m s = record {
  version_ = m.version_ + 1;
  levels_ = insert_first m.levels_ s;
  max_sst_id_ = if ltb m.max_sst_id_ s.id then s.id else m.max_sst_id_;
}

-- `(*sst.begin()).key` and `(*sst.rbegin()).key`; on a table without entries, which has no such
-- entry to read, the empty key.
abbrev pub begin_key_of : List Entry → Bytes
begin_key_of [] = []
begin_key_of (e ∷ es) = e.key

abbrev pub end_key_of : List Entry → Bytes
end_key_of [] = []
end_key_of (e ∷ []) = e.key
end_key_of (e ∷ f ∷ es) = end_key_of (f ∷ es)

unfoldable pub begin_key : Sst → Bytes
begin_key s = begin_key_of (entries s)

unfoldable pub end_key : Sst → Bytes
end_key s = end_key_of (entries s)

-- The queue with the next rank to give out: `queue` and `value`.
pub record Queue : Type 0 where
  pub cursors : List Cursor
  pub value : ℕ

abbrev pub push : Queue → Sst → Queue
push q s = record { cursors = emplace q.cursors (entries s) q.value; value = q.value + 1 }

unfoldable pub push_all : Queue → List Sst → Queue
push_all q [] = q
push_all q (s ∷ ss) = push_all (push q s) ss

-- The tests that widen `min_key` and `max_key`; an empty key counts as not set yet.
unfoldable pub widen_min : Bytes → Sst → Bytes
widen_min min_key s = if beq min_key [] || blt (begin_key s) min_key then begin_key s else min_key

unfoldable pub widen_max : Bytes → Sst → Bytes
widen_max max_key s = if beq max_key [] || blt max_key (end_key s) then end_key s else max_key

unfoldable pub min_key_from : Bytes → List Sst → Bytes
min_key_from m [] = m
min_key_from m (s ∷ ss) = min_key_from (widen_min m s) ss

unfoldable pub max_key_from : Bytes → List Sst → Bytes
max_key_from m [] = m
max_key_from m (s ∷ ss) = max_key_from (widen_max m s) ss

-- The variables of the scan over the next level. `insert_l` is one more than in the source, whose
-- variable starts at -1.
pub record ScanState : Type 0 where
  pub insert_l : ℕ
  pub insert_r : ℕ
  pub queue : Queue

unfoldable pub scan : Bytes → Bytes → List Sst → ℕ → ScanState → ScanState
scan min_key max_key [] i st = st
scan min_key max_key (s ∷ ss) i st = elim (blt (end_key s) min_key) [
  | true ↦ scan min_key max_key ss (i + 1) (record st { insert_l = i + 1 })
  | false ↦ elim (blt max_key (begin_key s)) [
    | true ↦ record st { insert_r = i }
    | false ↦ scan min_key max_key ss (i + 1) (record st { queue = push st.queue s })
  ]
]

abbrev pub no_level : Level
no_level = record { level = 0; ssts = [] }

-- The tables of the next level after the merge of `ups` into `downs`, where no file in use has the id.
unfoldable pub merged_tables : TableParams → ℕ → List Sst → List Sst → List Sst
merged_tables p id ups downs =
    let newest_first = reverse ups in
    let st = scan (min_key_from [] newest_first) (max_key_from [] newest_first) downs 0 (record {
      insert_l = 0;
      insert_r = length downs;
      queue = push_all (record { cursors = []; value = 0 }) newest_first;
    }) in
    take st.insert_l downs ++ build p (merge st.queue.cursors) id ∷ drop st.insert_r downs

-- `if (level + 1 == levels_.size()) levels_.emplace_back(Level(level + 1));`
unfoldable pub with_next : ℕ → List Level → List Level
with_next level vs =
    if level + 1 == length vs then vs ++ record { level = level + 1; ssts = [] } ∷ [] else vs

-- `SizeTieredCompaction(level, id, compression)` where no file in use has the id.
unfoldable pub merge_level : TableParams → ℕ → ℕ → Manifest → Manifest
merge_level p level id m =
    let vs = with_next level m.levels_ in
    let up = get_or vs level no_level in
    let down = get_or vs (suc level) no_level in
    record m {
      levels_ =
          set (set vs level (record up { ssts = [] })) (suc level)
            (record down { ssts = merged_tables p id up.ssts down.ssts });
      max_sst_id_ = if ltb m.max_sst_id_ id then id else m.max_sst_id_;
    }

unfoldable pub has_id : ℕ → List Sst → Bool
has_id id [] = false
has_id id (s ∷ ss) = if s.id == id then true else has_id id ss

-- Whether a table of a manifest is mapped from the file of an id.
unfoldable pub is_in_use : ℕ → List Level → Bool
is_in_use id [] = false
is_in_use id (v ∷ vs) = if has_id id v.ssts then true else is_in_use id vs

-- `SizeTieredCompaction(level, id, compression)`. Where a table that is in use has the id, the
-- constructor of `SST` overwrites its file, which is mapped: `none`, since nothing is known of that table.
unfoldable pub compact_level : TableParams → ℕ → ℕ → Manifest → Option Manifest
compact_level p level id m =
    if is_in_use id m.levels_ then none else some (merge_level p level id m)

-- `level_max_binary_size`.
unfoldable pub level_max_binary_size : ℕ → ℕ
level_max_binary_size i =
    get_or
      (1024
        ∷ (10 * 1024 * 1024)
        ∷ (100 * 1024 * 1024)
        ∷ (1000 * 1024 * 1024)
        ∷ (10000 * 1024 * 1024)
        ∷ [])
      i 0

abbrev pub max_level_size : ℕ
max_level_size = 5

-- The loop of `SizeTieredCompaction(id, compression)` from level `i` on; a compaction may add a level,
-- which the next test of `i < levels_.size()` sees.
unfoldable pub compact_from : TableParams → ℕ → ℕ → ℕ → Manifest → Option Manifest
compact_from p zero i id m = some m
compact_from p (suc rounds) i id m =
    if ltb i (length m.levels_)
      && ltb (level_max_binary_size i) (Level.binary_size (get_or m.levels_ i no_level))
    then elim (compact_level p i id m) [
      | none ↦ none
      | some next ↦ compact_from p rounds (i + 1) id next
    ]
    else some m

unfoldable pub size_tiered_compaction : TableParams → ℕ → Manifest → Option Manifest
size_tiered_compaction p id m = compact_from p max_level_size 0 id m

-- `CanDoCompaction`.
unfoldable pub can_do_compaction : Manifest → Bool
can_do_compaction m =
    ltb (level_max_binary_size 0) (Level.binary_size (get_or m.levels_ 0 no_level))
