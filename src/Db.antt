-- ===== src/Db.antt =====
-- `DB` of mokv/db.hpp over a memtable interface: the active memtable, the one that a `Put` is moving to
-- the flush queue, the queue, the one that the flush thread is writing, and the newest manifest. What a
-- call or the flush thread does under one lock is an operation here. The configuration has
-- `compression.enable` false, so a table file holds its entries as they are.
pub mod Contents
pub mod Run
pub mod Ids
use moyuan_kv.Prelude.{
  leb, if◌then◌else◌, Bytes, beq, ℕ, ◌+◌, Bool, true, false, Option, none, some, List, [], ◌∷◌,
  ◌++◌, reverse,
}
use moyuan_kv.Lsm.Sst.{TableParams, build}
use moyuan_kv.Lsm.Manifest
use moyuan_kv.Lsm.Manifest.{
  Manifest, new_manifest, insert_and_update, can_do_compaction, size_tiered_compaction, is_in_use,
}
use moyuan_kv.MemTable.{MemTable}

-- `TombstoneValue()`: "\x1E__mokv_deleted__\x1F".
abbrev pub tombstone_value : Bytes
tombstone_value =
    0x1e ∷ b'_' ∷ b'_' ∷ b'm' ∷ b'o' ∷ b'k' ∷ b'v' ∷ b'_' ∷ b'd' ∷ b'e' ∷ b'l' ∷ b'e' ∷ b't' ∷ b'e'
    ∷ b'd' ∷ b'_' ∷ b'_' ∷ 0x1f ∷ []

unfoldable pub is_tombstone : Bytes → Bool
is_tombstone value = beq value tombstone_value

-- A value that was found, as `Get` reports it.
unfoldable pub visible : Bytes → Option Bytes
visible value = if is_tombstone value then none else some value

module _ (mt : MemTable) where
  open mt use {Table}

  pub record Db : Type 0 where
    pub memtable : Table
    -- The local variable of `Put`, until it is queued.
    pub pending_flush : Option Table
    -- From the oldest to the newest.
    pub flush_queue : List Table
    -- The local variable of `ToSSTLoop`, from the `erase` on until `ToSST` is done.
    pub in_flight : Option Table
    -- `manifest_queue_.back()`.
    pub manifest : Manifest
    pub sst_id : ℕ
    pub memtable_max_size : ℕ

  -- The constructor on a fresh directory.
  unfoldable pub open_fresh : ℕ → Db
  open_fresh memtable_max_size = record {
    memtable = mt.new;
    pending_flush = none;
    flush_queue = [];
    in_flight = none;
    manifest = new_manifest;
    sst_id = 0;
    memtable_max_size = memtable_max_size;
  }

  -- The loop over the flush queue from its back, and the manifest behind it.
  unfoldable pub read_queue : List Table → Bytes → Option Bytes
  read_queue [] key = none
  read_queue (t ∷ ts) key = elim (mt.get t key) [
    | none ↦ read_queue ts key
    | some value ↦ some value
  ]

  unfoldable pub get : Db → Bytes → Option Bytes
  get db key = elim (mt.get db.memtable key) [
    | some value ↦ visible value
    | none ↦ elim (read_queue (reverse db.flush_queue) key) [
      | some value ↦ visible value
      | none ↦ elim (Manifest.get db.manifest key) [ some value ↦ visible value | none ↦ none ]
    ]
  ]

  -- The second part of `Put`, under the lock of the memtable.
  unfoldable pub take_full : Db → Db
  take_full db =
      if leb (mt.binary_size db.memtable) db.memtable_max_size
      then db
      else record db { memtable = mt.new; pending_flush = some db.memtable }

  -- `Put` up to its third part.
  unfoldable pub put_begin : ℕ → Bytes → Bytes → Db → Db
  put_begin height key value db =
      take_full (record db { memtable = mt.put height key value db.memtable })

  -- The third part of `Put`, under the lock of the queue.
  unfoldable pub put_end : Db → Db
  put_end db = elim db.pending_flush [
    | none ↦ db
    | some t ↦ record db { pending_flush = none; flush_queue = db.flush_queue ++ t ∷ [] }
  ]

  -- `Put` without another step between its parts.
  unfoldable pub put : ℕ → Bytes → Bytes → Db → Db
  put height key value db = put_end (put_begin height key value db)

  unfoldable pub delete : ℕ → Bytes → Db → Db
  delete height key db = put height key tombstone_value db

  unfoldable pub exists : Db → Bytes → Bool
  exists db key = elim (get db key) [ some value ↦ true | none ↦ false ]

  -- One round of `ToSSTLoop`, up to the unlock: the oldest memtable leaves the queue.
  unfoldable pub start_flush : Db → Db
  start_flush db = elim db.in_flight [
    | some t ↦ db
    | none ↦ elim db.flush_queue [
      | [] ↦ db
      | t ∷ ts ↦ record db { flush_queue = ts; in_flight = some t }
    ]
  ]

  -- The manifest that `ToSST` installs. Where a table in use has the id of a new one, its file is
  -- overwritten while it is mapped, and there is no result.
  unfoldable pub next_manifest : TableParams → ℕ → Table → Manifest → Option Manifest
  next_manifest p next_sst_id t m =
      let inserted = insert_and_update m (build p (mt.entries t) next_sst_id) in
      if is_in_use next_sst_id m.levels_
      then none
      else if can_do_compaction inserted
      then size_tiered_compaction p (next_sst_id + 1) inserted
      else some inserted

  -- `ToSST`, and the end of the round.
  unfoldable pub finish_flush : TableParams → Db → Option Db
  finish_flush p db = elim db.in_flight [
    | none ↦ some db
    | some t ↦
        let next_sst_id = db.sst_id + 1 in
        elim (next_manifest p next_sst_id t db.manifest) [
          | none ↦ none
          | some manifest ↦ some (record db {
            in_flight = none;
            manifest = manifest;
            sst_id =
                if can_do_compaction
                  (insert_and_update db.manifest (build p (mt.entries t) next_sst_id))
                then next_sst_id + 1
                else next_sst_id;
          })
        ]
  ]
