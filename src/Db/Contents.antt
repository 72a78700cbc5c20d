-- ===== src/Db/Contents.antt =====
-- What the parts of the database hold together, and what each operation does to it.
use moyuan_kv.Prelude.{
  leb, if◌then◌else◌, Bool-cases, All, Bytes, beq, ℕ, ◌+◌, ◌≡◌, refl, ap, ◌∙◌, inl, inr, Option,
  none, some, List, [], ◌∷◌, ◌++◌, reverse, reverse-append, reverse-cons, arith,
}
use moyuan_kv.Lsm.Entries.{Entry, Sorted, lookup, or_else}
use moyuan_kv.Lsm.Sst.{TableParams, build, entries}
use moyuan_kv.Lsm.Sst.Search.{IsValidSst, build-IsValidSst, entries-build}
use moyuan_kv.Lsm.Manifest
use moyuan_kv.Lsm.Manifest.{
  Manifest, insert_and_update, is_in_use, size_tiered_compaction, can_do_compaction,
}
use moyuan_kv.Lsm.Manifest.Scan.{NotEmpty}
use moyuan_kv.Lsm.Manifest.Range.{KeyNotEmpty}
use moyuan_kv.Lsm.Manifest.Reading
use moyuan_kv.Lsm.Manifest.Insert.{get-insert_and_update, insert_and_update-IsValid}
use moyuan_kv.Lsm.Manifest.Compact.{size_tiered_compaction-Preserves}
use moyuan_kv.MemTable.{MemTable}
use moyuan_kv.Db.{
  Db, visible, read_queue, get, take_full, put_begin, put_end, start_flush, finish_flush,
  next_manifest,
}

-- A value as a reader sees it.
abbrev pub see : Option Bytes → Option Bytes
see none = none
see (some value) = visible value

no_empty_key : (es : List Entry) → lookup [] es ≡ none → All (λ e. KeyNotEmpty e.key) es
unfolding lookup
no_empty_key [] h = tt
no_empty_key (e ∷ es) h = elim (Bool-cases (beq e.key [])) [
  | inl x ↦ ground (arith, x, h)
  | inr x ↦ (x, no_empty_key es (ground (arith, x, h)))
]

module _ (mt : MemTable) where
  open mt use {Table}

  -- A memtable without the empty key.
  pub record IsGood (t : Table) : Type 0 where
    pub valid : mt.IsValid t
    pub no_empty : mt.get t [] ≡ none

  -- One that is written to a table file is not empty.
  pub record IsFull (t : Table) : Type 0 where
    pub good : IsGood t
    pub filled : NotEmpty (mt.entries t)

  abbrev pub FlightIsFull : Option Table → Type 0
  FlightIsFull none = Unit
  FlightIsFull (some t) = IsFull t

  pub record IsValid (db : Db mt) : Type 0 where
    pub memtable : IsGood db.memtable
    pub pending : FlightIsFull db.pending_flush
    pub queue : All IsFull db.flush_queue
    pub flight : FlightIsFull db.in_flight
    pub manifest : Reading.IsValid db.manifest

  abbrev flight_get : Option Table → Bytes → Option Bytes
  flight_get none key = none
  flight_get (some t) key = mt.get t key

  -- The newest entry for a key, a tombstone included, over all parts, those that `Get` does not ask too.
  unfoldable pub newest : Db mt → Bytes → Option Bytes
  newest db key = or_else (mt.get db.memtable key) (
      or_else (flight_get db.pending_flush key) (
        or_else (read_queue mt (reverse db.flush_queue) key)
          (or_else (flight_get db.in_flight key) (Manifest.get db.manifest key))))

  -- The map from keys to values that the database stands for.
  unfoldable pub contents : Db mt → Bytes → Option Bytes
  contents db key = see (newest db key)

  -- While no memtable is on its way to the queue or to a file, `Get` returns the contents.
  pub get-contents :
      (db : Db mt) (key : Bytes)
      → db.pending_flush ≡ none
      → db.in_flight ≡ none
      → get mt db key ≡ contents db key
  unfolding get contents newest
  get-contents db key o e = ground (arith, o, e)

  read_queue-append :
      (ts us : List Table) (key : Bytes)
      → read_queue mt (ts ++ us) key ≡ or_else (read_queue mt ts key) (read_queue mt us key)
  unfolding read_queue
  read_queue-append [] us key = refl
  read_queue-append (t ∷ ts) us key = ground (arith, read_queue-append ts us key)

  read_queue_one : (t : Table) (key : Bytes) → read_queue mt (t ∷ []) key ≡ mt.get t key
  unfolding read_queue
  read_queue_one t key = ground arith

  read_queue-push :
      (q : List Table) (t : Table) (key : Bytes)
      → read_queue mt (reverse (q ++ t ∷ [])) key
        ≡ or_else (mt.get t key) (read_queue mt (reverse q) key)
  read_queue-push q t key = rw (reverse-append q (t ∷ [])) (
      read_queue-append (t ∷ []) (reverse q) key
      ∙ ap (λ o. or_else o (read_queue mt (reverse q) key)) (read_queue_one t key))

  read_queue-pop :
      (q : List Table) (t : Table) (key : Bytes)
      → read_queue mt (reverse (t ∷ q)) key ≡ or_else (read_queue mt (reverse q) key) (mt.get t key)
  read_queue-pop q t key = rw (reverse-cons t q) (
      read_queue-append (reverse q) (t ∷ []) key
      ∙ ap (or_else (read_queue mt (reverse q) key)) (read_queue_one t key))

  -- A full memtable that leaves its place is still read first.
  newest-take_full :
      (db : Db mt) (key : Bytes)
      → db.pending_flush ≡ none
      → newest (take_full mt db) key ≡ newest db key
  unfolding newest take_full
  newest-take_full db key o =
      elim (Bool-cases (leb (mt.binary_size db.memtable) db.memtable_max_size)) [
        | inl e ↦ rw e refl
        | inr e ↦ rw e (ground (arith, mt.get-new key, o))
      ]

  put_end_parts :
      (db : Db mt) (f : Option Table) (key : Bytes)
      → newest (put_end mt (record db { pending_flush = f })) key
        ≡ newest (record db { pending_flush = f }) key
  unfolding newest put_end
  put_end_parts db none key = refl
  put_end_parts db (some t) key = ground (arith, read_queue-push db.flush_queue t key)

  pub newest-put_end : (db : Db mt) (key : Bytes) → newest (put_end mt db) key ≡ newest db key
  newest-put_end db key = put_end_parts db db.pending_flush key

  newest-write :
      (h : ℕ) (k v : Bytes) (db : Db mt) (j : Bytes)
      → mt.IsValid db.memtable
      → newest (record db { memtable = mt.put h k v db.memtable }) j
        ≡ (if beq k j then some v else newest db j)
  unfolding newest
  newest-write h k v db j w = ground (arith, mt.get-put h k v db.memtable j w)

  pub newest-put_begin :
      (h : ℕ) (k v : Bytes) (db : Db mt) (j : Bytes)
      → mt.IsValid db.memtable
      → db.pending_flush ≡ none
      → newest (put_begin mt h k v db) j ≡ (if beq k j then some v else newest db j)
  unfolding put_begin
  newest-put_begin h k v db j w o =
      newest-take_full (record db { memtable = mt.put h k v db.memtable }) j o
      ∙ newest-write h k v db j w

  start_flush_parts :
      (db : Db mt) (q : List Table) (f : Option Table) (j : Bytes)
      → newest (start_flush mt (record db { flush_queue = q; in_flight = f })) j
        ≡ newest (record db { flush_queue = q; in_flight = f }) j
  unfolding newest start_flush
  start_flush_parts db q (some t) j = refl
  start_flush_parts db [] none j = refl
  start_flush_parts db (t ∷ ts) none j = ground (arith, read_queue-pop ts t j)

  pub newest-start_flush : (db : Db mt) (j : Bytes) → newest (start_flush mt db) j ≡ newest db j
  newest-start_flush db j = start_flush_parts db db.flush_queue db.in_flight j

  build-Valid :
      (p : TableParams) (es : List Entry) (id : ℕ)
      → Sorted es
      → NotEmpty es
      → IsValidSst (build p es id)
  build-Valid p [] id s n = absurd n
  build-Valid p (e ∷ es) id s n = build-IsValidSst p e es id s

  -- The table file of a full memtable.
  flushed-Valid :
      (p : TableParams) (id : ℕ) (t : Table) → IsFull t → IsValidSst (build p (mt.entries t) id)
  flushed-Valid p id t f =
      build-Valid p (mt.entries t) id (mt.entries-Sorted t f.good.valid) f.filled

  flushed-filled :
      (p : TableParams) (id : ℕ) (t : Table)
      → IsFull t
      → All (λ e. KeyNotEmpty e.key) (entries (build p (mt.entries t) id))
  flushed-filled p id t f =
      rw (entries-build p (mt.entries t) id)
        (no_empty_key (mt.entries t) (mt.lookup-entries t [] f.good.valid ∙ f.good.no_empty))

  inserted-IsValid :
      (p : TableParams) (id : ℕ) (t : Table) (m : Manifest)
      → IsFull t
      → Reading.IsValid m
      → Reading.IsValid (insert_and_update m (build p (mt.entries t) id))
  inserted-IsValid p id t m f v =
      insert_and_update-IsValid m _ (flushed-Valid p id t f) (flushed-filled p id t f) v

  -- What is promised of the manifest that a flush installs, where there is one.
  record Adds (t : Table) (m n : Manifest) : Type 0 where
    valid : Reading.IsValid n
    same : (k : Bytes) → Manifest.get n k ≡ or_else (mt.get t k) (Manifest.get m k)

  abbrev Installs : Table → Manifest → Option Manifest → Type 0
  Installs t m none = Unit
  Installs t m (some n) = Adds t m n

  inserted-Adds :
      (p : TableParams) (id : ℕ) (t : Table) (m : Manifest)
      → IsFull t
      → Reading.IsValid m
      → Adds t m (insert_and_update m (build p (mt.entries t) id))
  inserted-Adds p id t m f v = record {
    valid = inserted-IsValid p id t m f v;
    same = λ k.
        get-insert_and_update m _ k (flushed-Valid p id t f) (flushed-filled p id t f) v
        ∙ ap (λ o. or_else o (Manifest.get m k))
            (ap (lookup k) (entries-build p (mt.entries t) id)
              ∙ mt.lookup-entries t k f.good.valid);
  }

  compacted-Installs :
      (p : TableParams) (id : ℕ) (t : Table) (m n : Manifest) (r : Option Manifest)
      → Adds t m n
      → size_tiered_compaction p id n ≡ r
      → Installs t m r
  compacted-Installs p id t m n none a e = tt
  compacted-Installs p id t m n (some o) a e =
      let done = size_tiered_compaction-Preserves p id n o a.valid e in
      record { valid = done.0; same = λ k. done.1 k ∙ a.same k }

  next_manifest-Installs :
      (p : TableParams) (id : ℕ) (t : Table) (m : Manifest)
      → IsFull t
      → Reading.IsValid m
      → Installs t m (next_manifest mt p id t m)
  unfolding next_manifest
  next_manifest-Installs p id t m f v =
      let inserted = insert_and_update m (build p (mt.entries t) id) in
      let adds = inserted-Adds p id t m f v in
      elim (Bool-cases (is_in_use id m.levels_)) [
        | inl u ↦ rw u tt
        | inr u ↦ elim (Bool-cases (can_do_compaction inserted)) [
          | inl e ↦ rw (u, e) (compacted-Installs p (id + 1) t m inserted _ adds refl)
          | inr e ↦ rw (u, e) adds
        ]
      ]

  -- What is promised of the database at the end of a round, where there is one.
  abbrev pub Keeps : Db mt → Option (Db mt) → Type 0
  Keeps db none = Unit
  Keeps db (some next) = IsValid next × ((j : Bytes) → newest next j ≡ newest db j)

  finish_flush_parts :
      (p : TableParams) (db : Db mt) (t : Table) (r : Option Manifest)
      → IsValid (record db { in_flight = some t })
      → Installs t db.manifest r
      → next_manifest mt p (db.sst_id + 1) t db.manifest ≡ r
      → Keeps
          (record db { in_flight = some t })
          (finish_flush mt p (record db { in_flight = some t }))
  unfolding newest finish_flush
  finish_flush_parts p db t none v a e = rw (Keeps, finish_flush, e) tt
  finish_flush_parts p db t (some m) v a e =
      rw (Keeps, finish_flush, e)
        (
          record {
            memtable = v.memtable;
            pending = v.pending;
            queue = v.queue;
            flight = tt;
            manifest = a.valid;
          },
          λ j.
              ap
                (λ o. or_else (mt.get db.memtable j) (
                  or_else (flight_get db.pending_flush j)
                    (or_else (read_queue mt (reverse db.flush_queue) j) o)))
                (a.same j),
        )

  finish_flush_cases :
      (p : TableParams) (db : Db mt) (f : Option Table)
      → IsValid (record db { in_flight = f })
      → Keeps (record db { in_flight = f }) (finish_flush mt p (record db { in_flight = f }))
  unfolding finish_flush
  finish_flush_cases p db none v = (v, λ j. refl)
  finish_flush_cases p db (some t) v =
      finish_flush_parts p db t _ v
        (next_manifest-Installs p (db.sst_id + 1) t db.manifest v.flight v.manifest) refl

  pub finish_flush-Keeps :
      (p : TableParams) (db : Db mt) → IsValid db → Keeps db (finish_flush mt p db)
  finish_flush-Keeps p db v = finish_flush_cases p db db.in_flight v
