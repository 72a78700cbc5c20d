-- ===== src/Tests/Storage.antt =====
-- Two flushed tables of four entries, a manifest with both, and a run of the database.
use moyuan_kv.Lsm.Block.{DataBlock}
use moyuan_kv.Prelude.{
  ltb, length, All, Bytes, beq, blt, ◌+◌, ◌*◌, ◌≡◌, refl, true, false, Option, none, some, List, [],
  ◌∷◌, arith,
}
use moyuan_kv.Lsm.Entries.{Entry, Sorted, lookup, or_else}
use moyuan_kv.Lsm.Bisect.{bisect, IsMonotone, Splits, bisect-Splits}
use moyuan_kv.Lsm.Block
use moyuan_kv.Lsm.Block.Search
use moyuan_kv.Lsm.Block.Search.{IsValidBlock}
use moyuan_kv.Lsm.Sst
use moyuan_kv.Lsm.Sst.{Sst, TableParams, build, build_block, entries}
use moyuan_kv.Lsm.Sst.Search.{IsValidSst, build-IsValidSst, sst_get-lookup}
use moyuan_kv.Lsm.Level
use moyuan_kv.Lsm.Level.{Level}
use moyuan_kv.Lsm.Level.Search.{IsValidLevel, all_entries, ranked, level_get-lookup}
use moyuan_kv.Lsm.Merge.{Cursor, merge}
use moyuan_kv.Lsm.Merge.Sources.{best}
use moyuan_kv.Lsm.Merge.Output
use moyuan_kv.Lsm.Merge.Output.{merge-Merged, value_of}
use moyuan_kv.Lsm.Manifest
use moyuan_kv.Lsm.Manifest.{
  Manifest, insert_and_update, merged_tables, size_tiered_compaction, merge_level, is_in_use,
  has_id, can_do_compaction,
}
use moyuan_kv.Lsm.Manifest.Range.{KeyNotEmpty}
use moyuan_kv.Lsm.Manifest.Reading
use moyuan_kv.Lsm.Manifest.Reading.{manifest_get-search, search_levels}
use moyuan_kv.Lsm.Manifest.Merged.{lookup-merged_tables}
use moyuan_kv.Lsm.Manifest.Spill.{
  Compacted, is_over, size_tiered_compaction-Compacted, size_tiered_compaction-spill,
}
use moyuan_kv.Lsm.Manifest.Insert.{get-insert_and_update}
use moyuan_kv.Db.{Db, open_fresh, get, is_tombstone, start_flush, finish_flush}
use moyuan_kv.Db.Ids.{EndsRound, flushed, finish_flush-EndsRound}
use moyuan_kv.Db
use moyuan_kv.Db.Run
use moyuan_kv.Lsm.Insertion
use moyuan_kv.Lsm.Merge
use moyuan_kv.Db.Contents
use moyuan_kv.Db.Contents.{contents}
use moyuan_kv.Db.Run.{
  Event, EventIsFilled, puts, deletes, call_ends, flush_starts, flush_ends, run, spec_run, step,
  contents-run, get-run, get-start_flush, open_fresh-IsValid,
}
use moyuan_kv.Tests.Tables.{sorted_table, lookup_nil}

abbrev params : TableParams
params = record {
  filter_length = λ n. n * 8 + 1;
  filter_seeds = λ n. 3 ∷ 7 ∷ [];
  encoded_size = λ es. 5000000 * length es;
  filter_length_pos = λ n. omega arith;
}

abbrev apple : Bytes
apple = b'a' ∷ b'p' ∷ []

abbrev berry : Bytes
berry = b'b' ∷ []

abbrev cherry : Bytes
cherry = b'c' ∷ []

abbrev red : Bytes
red = b'r' ∷ []

abbrev old_entry : Entry
old_entry = record { key = apple; value = berry }

abbrev last_entry : Entry
last_entry = record { key = cherry; value = red }

abbrev new_entry : Entry
new_entry = record { key = apple; value = red }

abbrev middle_entry : Entry
middle_entry = record { key = berry; value = red }

old_Sorted : Sorted (old_entry ∷ last_entry ∷ [])
unfolding blt
old_Sorted = ((refl, tt), (tt, tt))

new_Sorted : Sorted (new_entry ∷ middle_entry ∷ [])
unfolding blt
new_Sorted = ((refl, tt), (tt, tt))

abbrev old_table : Sst
old_table = build params (old_entry ∷ last_entry ∷ []) 1

abbrev new_table : Sst
new_table = build params (new_entry ∷ middle_entry ∷ []) 2

old_table-IsValid : IsValidSst old_table
old_table-IsValid = build-IsValidSst params old_entry (last_entry ∷ []) 1 old_Sorted

new_table-IsValid : IsValidSst new_table
new_table-IsValid = build-IsValidSst params new_entry (middle_entry ∷ []) 2 new_Sorted

old_filled : All (λ e. KeyNotEmpty e.key) (entries old_table)
unfolding build build_block beq
old_filled = (refl, (refl, tt))

new_filled : All (λ e. KeyNotEmpty e.key) (entries new_table)
unfolding build build_block beq
new_filled = (refl, (refl, tt))

abbrev newest_level : Level
newest_level = record { level = 0; ssts = old_table ∷ new_table ∷ [] }

newest_level-IsValid : IsValidLevel newest_level
newest_level-IsValid = record {
  valid = (old_table-IsValid, (new_table-IsValid, tt));
  disjoint = λ n. absurd (n refl);
}

abbrev manifest : Manifest
manifest = record { version_ = 2; levels_ = newest_level ∷ []; max_sst_id_ = 2 }

manifest-IsValid : Reading.IsValid manifest
manifest-IsValid = record {
  numbered = (refl, tt);
  levels = (newest_level-IsValid, tt);
  filled = ((old_filled, (new_filled, tt)), tt);
  not_empty = omega arith;
}

sst_get-lookup_example : Sst.get old_table cherry ≡ lookup cherry (entries old_table)
sst_get-lookup_example = sst_get-lookup old_table cherry old_table-IsValid

level_get-lookup_example : Level.get newest_level apple ≡ lookup apple (ranked newest_level)
level_get-lookup_example = level_get-lookup newest_level apple newest_level-IsValid

manifest_get-search_example : Manifest.get manifest apple ≡ search_levels apple (newest_level ∷ [])
manifest_get-search_example = manifest_get-search manifest apple manifest-IsValid

-- Tables that stay within the limit of level 1.
abbrev small : TableParams
small = record params { encoded_size = λ es. 2000 * length es }

three_is_new : is_in_use 3 manifest.levels_ ≡ false
unfolding is_in_use has_id build
three_is_new = refl

fits : is_over (merge_level small 0 3 manifest) ≡ false
unfolding is_over merge_level Manifest.with_next merged_tables Manifest.scan Manifest.push_all
    Manifest.min_key_from Manifest.max_key_from Manifest.widen_min Manifest.widen_max
    Manifest.begin_key Manifest.end_key Manifest.level_max_binary_size Level.binary_size
    Level.sum_sizes build build_block Merge.less Merge.pop_top Merge.emplace Merge.advance
    Merge.is_last Merge.merge_loop merge blt beq
fits = refl

spills : is_over (merge_level params 0 3 manifest) ≡ true
unfolding is_over merge_level Manifest.with_next merged_tables Manifest.scan Manifest.push_all
    Manifest.min_key_from Manifest.max_key_from Manifest.widen_min Manifest.widen_max
    Manifest.begin_key Manifest.end_key Manifest.level_max_binary_size Level.binary_size
    Level.sum_sizes build build_block Merge.less Merge.pop_top Merge.emplace Merge.advance
    Merge.is_last Merge.merge_loop merge blt beq
spills = refl

too_large : can_do_compaction manifest ≡ true
unfolding can_do_compaction Manifest.level_max_binary_size Level.binary_size Level.sum_sizes build
too_large = refl

size_tiered_compaction-Compacted_example : Compacted small 3 manifest
size_tiered_compaction-Compacted_example =
    size_tiered_compaction-Compacted small 3 manifest manifest-IsValid three_is_new fits

size_tiered_compaction-spill_example : size_tiered_compaction params 3 manifest ≡ none
size_tiered_compaction-spill_example =
    size_tiered_compaction-spill params 3 manifest manifest-IsValid too_large spills

get-insert_and_update_example :
    Manifest.get (insert_and_update manifest new_table) apple
    ≡ or_else (lookup apple (entries new_table)) (Manifest.get manifest apple)
get-insert_and_update_example =
    get-insert_and_update manifest new_table apple new_table-IsValid new_filled manifest-IsValid

old_table_alone : Sorted (all_entries (old_table ∷ []))
unfolding build build_block blt
old_table_alone = ((refl, tt), (tt, tt))

lookup-merged_tables_example :
    lookup apple (all_entries (merged_tables params 3 (new_table ∷ []) (old_table ∷ [])))
    ≡ or_else
        (lookup apple (all_entries (new_table ∷ [])))
        (lookup apple (all_entries (old_table ∷ [])))
lookup-merged_tables_example =
    lookup-merged_tables params 3 (new_table ∷ []) (old_table ∷ []) (new_table-IsValid, tt)
      (new_filled, tt) (old_table-IsValid, tt) old_table_alone apple

abbrev cursors : List Cursor
cursors =
    record { current = new_entry; rest = middle_entry ∷ []; second_value = 0 }
    ∷ record { current = old_entry; rest = last_entry ∷ []; second_value = 1 }
    ∷ []

cursors-IsReady : Output.IsReady none cursors
cursors-IsReady = record {
  sorted = (new_Sorted, (old_Sorted, tt));
  distinct = ((omega arith, tt), (tt, tt));
  reached = (tt, (tt, tt));
}

merge-Merged_example :
    Sorted (merge cursors) × ((k : Bytes) → lookup k (merge cursors) ≡ value_of (best k cursors))
merge-Merged_example = merge-Merged cursors cursors-IsReady

abbrev old_block : DataBlock
old_block = build_block params (old_entry ∷ last_entry ∷ [])

old_block-IsValid : IsValidBlock old_block
unfolding build
old_block-IsValid = old_table-IsValid.valid_blocks.0

get-lookup_example : Block.get old_block cherry ≡ lookup cherry old_block.data_index
get-lookup_example = Search.get-lookup old_block cherry old_block-IsValid

turn-IsMonotone : IsMonotone (λ i. ltb i 3) 5
turn-IsMonotone = record { down = λ i j a b h. ground arith }

all_open : Splits (λ i. ltb i 3) 5 0 5
all_open = record {
  order = omega arith;
  bound = omega arith;
  before = λ i h. absurd (omega arith);
  after = λ i h n. absurd (omega arith);
}

bisect-Splits_example :
    Splits (λ i. ltb i 3) 5 (bisect 6 (λ i. ltb i 3) 0 5) (bisect 6 (λ i. ltb i 3) 0 5)
bisect-Splits_example = bisect-Splits 6 (λ i. ltb i 3) 5 0 5 turn-IsMonotone (omega arith) all_open

abbrev history : List Event
history =
    puts 1 apple berry
    ∷ puts 2 cherry red
    ∷ call_ends
    ∷ flush_starts
    ∷ puts 1 apple red
    ∷ flush_ends
    ∷ deletes 1 cherry
    ∷ call_ends
    ∷ flush_starts
    ∷ flush_ends
    ∷ []

apple_filled : KeyNotEmpty apple
unfolding beq
apple_filled = refl

cherry_filled : KeyNotEmpty cherry
unfolding beq
cherry_filled = refl

history_filled : All EventIsFilled history
history_filled = (
  apple_filled,
  (cherry_filled, (tt, (tt, (apple_filled, (tt, (cherry_filled, (tt, (tt, (tt, tt))))))))),
)

abbrev start : Db sorted_table
start = open_fresh sorted_table 1

start-IsValid : Contents.IsValid sorted_table start
start-IsValid = open_fresh-IsValid sorted_table small 1

abbrev or_start : Option (Db sorted_table) → Db sorted_table
or_start none = start
or_start (some db) = db

abbrev end : Db sorted_table
end = or_start (run sorted_table small history start)

history_ends : run sorted_table small history start ≡ some end
unfolding run step Run.begin Db.put_begin Db.put_end Db.take_full Db.start_flush Db.finish_flush
    Db.next_manifest open_fresh insert_and_update Manifest.insert_first Level.insert
    can_do_compaction is_in_use has_id size_tiered_compaction Manifest.compact_from
    Manifest.compact_level Insertion.insert merge_level Manifest.with_next merged_tables
    Manifest.scan Manifest.push_all Manifest.min_key_from Manifest.max_key_from Manifest.widen_min
    Manifest.widen_max Manifest.begin_key Manifest.end_key Manifest.level_max_binary_size
    Level.binary_size Level.sum_sizes build build_block Merge.less Merge.pop_top Merge.emplace
    Merge.advance Merge.is_last Merge.merge_loop merge blt beq
history_ends = refl

queued : end.pending_flush ≡ none
unfolding run step Run.begin Db.put_begin Db.put_end Db.take_full Db.start_flush Db.finish_flush
    Db.next_manifest open_fresh insert_and_update Manifest.insert_first Level.insert
    can_do_compaction is_in_use has_id size_tiered_compaction Manifest.compact_from
    Manifest.compact_level Insertion.insert merge_level Manifest.with_next merged_tables
    Manifest.scan Manifest.push_all Manifest.min_key_from Manifest.max_key_from Manifest.widen_min
    Manifest.widen_max Manifest.begin_key Manifest.end_key Manifest.level_max_binary_size
    Level.binary_size Level.sum_sizes build build_block Merge.less Merge.pop_top Merge.emplace
    Merge.advance Merge.is_last Merge.merge_loop merge blt beq
queued = refl

idle : end.in_flight ≡ none
unfolding run step Run.begin Db.put_begin Db.put_end Db.take_full Db.start_flush Db.finish_flush
    Db.next_manifest open_fresh insert_and_update Manifest.insert_first Level.insert
    can_do_compaction is_in_use has_id size_tiered_compaction Manifest.compact_from
    Manifest.compact_level Insertion.insert merge_level Manifest.with_next merged_tables
    Manifest.scan Manifest.push_all Manifest.min_key_from Manifest.max_key_from Manifest.widen_min
    Manifest.widen_max Manifest.begin_key Manifest.end_key Manifest.level_max_binary_size
    Level.binary_size Level.sum_sizes build build_block Merge.less Merge.pop_top Merge.emplace
    Merge.advance Merge.is_last Merge.merge_loop merge blt beq
idle = refl

get-run_example : get sorted_table end apple ≡ spec_run history (λ k. none) apple
get-run_example =
    get-run sorted_table small 1 history end apple history_filled history_ends queued idle

contents-run_example :
    contents sorted_table end cherry ≡ spec_run history (contents sorted_table start) cherry
contents-run_example =
    contents-run sorted_table small history start end cherry history_filled start-IsValid
      history_ends

abbrev one_queued : Db sorted_table
one_queued = record start { flush_queue = (new_entry ∷ []) ∷ [] }

apple_queued : lookup apple (new_entry ∷ []) ≡ some red
unfolding lookup beq
apple_queued = refl

red_shown : is_tombstone red ≡ false
unfolding is_tombstone beq
red_shown = refl

empty_lacks : lookup apple [] ≡ none
empty_lacks = lookup_nil apple

new_manifest_lacks : Manifest.get start.manifest apple ≡ none
unfolding open_fresh Manifest.get Manifest.read_levels Level.get Level.read_each
new_manifest_lacks = refl

get-start_flush_example :
    (get sorted_table one_queued apple ≡ some red)
    × (get sorted_table (start_flush sorted_table one_queued) apple ≡ none)
    × (contents sorted_table (start_flush sorted_table one_queued) apple ≡ some red)
unfolding open_fresh
get-start_flush_example =
    get-start_flush sorted_table small one_queued (new_entry ∷ []) apple red refl refl refl
      apple_queued red_shown empty_lacks new_manifest_lacks

abbrev flushing : Db sorted_table
flushing = record start { in_flight = some (new_entry ∷ middle_entry ∷ []) }

flush_fits :
    is_over (
      merge_level small 0
        (flushing.sst_id + 1 + 1)
        (flushed sorted_table small flushing (new_entry ∷ middle_entry ∷ [])))
    ≡ false
unfolding open_fresh insert_and_update Manifest.insert_first Level.insert is_over merge_level
    Manifest.with_next merged_tables Manifest.scan Manifest.push_all Manifest.min_key_from
    Manifest.max_key_from Manifest.widen_min Manifest.widen_max Manifest.begin_key Manifest.end_key
    Manifest.level_max_binary_size Level.binary_size Level.sum_sizes build build_block Merge.less
    Merge.pop_top Merge.emplace Merge.advance Merge.is_last Merge.merge_loop merge blt beq
flush_fits = refl

finish_flush-EndsRound_example :
    EndsRound sorted_table small (finish_flush sorted_table small flushing)
unfolding open_fresh
finish_flush-EndsRound_example =
    finish_flush-EndsRound sorted_table small flushing (new_entry ∷ middle_entry ∷ []) refl
      (omega arith) (tt, tt) flush_fits
