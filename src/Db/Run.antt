-- ===== src/Db/Run.antt =====
-- The database as a map, under any interleaving of its clients with the flush thread.
use moyuan_kv.Prelude.{
  leb, if◌then◌else◌, Bool-cases, All, All-append, Bytes, beq_refl, beq, ℕ, ◌≡◌, refl, ap, ◌∙◌,
  subst, fun_ext, inl, inr, false, Option, none, some, List, [], ◌∷◌, arith,
}
use moyuan_kv.Lsm.Sst.{TableParams}
use moyuan_kv.Lsm.Level
use moyuan_kv.Lsm.Manifest
use moyuan_kv.Lsm.Manifest.Merged.{NotEmpty-of_lookup}
use moyuan_kv.Lsm.Manifest.Range.{KeyNotEmpty}
use moyuan_kv.MemTable.{MemTable}
use moyuan_kv.Db.{
  Db, visible, is_tombstone, tombstone_value, open_fresh, get, take_full, put_begin, put_end,
  start_flush, finish_flush, read_queue,
}
use moyuan_kv.Db.Contents.{
  IsValid, IsGood, IsFull, contents, newest, see, Keeps, newest-put_begin, newest-put_end,
  newest-start_flush, finish_flush-Keeps, get-contents,
}

-- What happens to a database: the first two parts of a client's `Put` or `Delete`, with the height that
-- the skip list draws for it, its last part, or a step of the flush thread.
pub data Event : Type 0 where
  puts : ℕ → Bytes → Bytes → Event
  deletes : ℕ → Bytes → Event
  call_ends : Event
  flush_starts : Event
  flush_ends : Event

-- The specification: a map, on which the ends of calls and the flush thread have no effect. A value that is spelled like the
-- tombstone removes its key.
unfoldable pub spec_step : Event → (Bytes → Option Bytes) → Bytes → Option Bytes
spec_step (puts h k v) f j = if beq k j then visible v else f j
spec_step (deletes h k) f j = if beq k j then none else f j
spec_step call_ends f j = f j
spec_step flush_starts f j = f j
spec_step flush_ends f j = f j

unfoldable pub spec_run : List Event → (Bytes → Option Bytes) → Bytes → Option Bytes
spec_run [] f = f
spec_run (e ∷ es) f = spec_run es (spec_step e f)

abbrev pub EventIsFilled : Event → Type 0
EventIsFilled (puts h k v) = KeyNotEmpty k
EventIsFilled (deletes h k) = KeyNotEmpty k
EventIsFilled call_ends = Unit
EventIsFilled flush_starts = Unit
EventIsFilled flush_ends = Unit

pub visible_tombstone : visible tombstone_value ≡ none
unfolding visible is_tombstone beq
visible_tombstone = refl

module _ (mt : MemTable) (p : TableParams) where
  open mt use {Table}

  -- One client writes at a time: a write that starts while another is moving a memtable is no step.
  unfoldable pub begin : ℕ → Bytes → Bytes → Db mt → Option (Db mt)
  begin h k v db = elim db.pending_flush [ none ↦ some (put_begin mt h k v db) | some t ↦ none ]

  -- An event, where it can happen and overwrites no file in use.
  unfoldable pub step : Event → Db mt → Option (Db mt)
  step (puts h k v) db = begin h k v db
  step (deletes h k) db = begin h k tombstone_value db
  step call_ends db = some (put_end mt db)
  step flush_starts db = some (start_flush mt db)
  step flush_ends db = finish_flush mt p db

  unfoldable pub run : List Event → Db mt → Option (Db mt)
  run [] db = some db
  run (e ∷ es) db = elim (step e db) [ none ↦ none | some next ↦ run es next ]

  put-IsGood :
      (h : ℕ) (k v : Bytes) (t : Table) → KeyNotEmpty k → IsGood mt t → IsGood mt (mt.put h k v t)
  put-IsGood h k v t n g = record {
    valid = mt.put-IsValid h k v t g.valid;
    no_empty = rw (mt.get-put h k v t [] g.valid, n) g.no_empty;
  }

  put-IsFull :
      (h : ℕ) (k v : Bytes) (t : Table) → KeyNotEmpty k → IsGood mt t → IsFull mt (mt.put h k v t)
  put-IsFull h k v t n g = record {
    good = put-IsGood h k v t n g;
    filled = NotEmpty-of_lookup k v (mt.entries (mt.put h k v t)) (
        mt.lookup-entries (mt.put h k v t) k (mt.put-IsValid h k v t g.valid)
        ∙ rw (mt.get-put h k v t k g.valid, beq_refl k) refl);
  }

  put_begin-IsValid :
      (h : ℕ) (k v : Bytes) (db : Db mt)
      → KeyNotEmpty k
      → IsValid mt db
      → IsValid mt (put_begin mt h k v db)
  unfolding put_begin take_full
  put_begin-IsValid h k v db n w =
      elim (Bool-cases (leb (mt.binary_size (mt.put h k v db.memtable)) db.memtable_max_size)) [
        | inl e ↦ rw e (record {
          memtable = put-IsGood h k v db.memtable n w.memtable;
          pending = w.pending;
          queue = w.queue;
          flight = w.flight;
          manifest = w.manifest;
        })
        | inr e ↦ rw e (record {
          memtable = record { valid = mt.new-IsValid; no_empty = mt.get-new [] };
          pending = put-IsFull h k v db.memtable n w.memtable;
          queue = w.queue;
          flight = w.flight;
          manifest = w.manifest;
        })
      ]

  put_end-IsValid :
      (db : Db mt) (f : Option Table)
      → IsValid mt (record db { pending_flush = f })
      → IsValid mt (put_end mt (record db { pending_flush = f }))
  unfolding put_end
  put_end-IsValid db none w = w
  put_end-IsValid db (some t) w = record {
    memtable = w.memtable;
    pending = tt;
    queue = All-append (IsFull mt) db.flush_queue _ w.queue (w.pending, tt);
    flight = w.flight;
    manifest = w.manifest;
  }

  pub start_flush-IsValid :
      (db : Db mt) (q : List Table) (f : Option Table)
      → IsValid mt (record db { flush_queue = q; in_flight = f })
      → IsValid mt (start_flush mt (record db { flush_queue = q; in_flight = f }))
  unfolding start_flush
  start_flush-IsValid db q (some t) w = w
  start_flush-IsValid db [] none w = w
  start_flush-IsValid db (t ∷ ts) none w = record {
    memtable = w.memtable;
    pending = w.pending;
    queue = w.queue.1;
    flight = w.queue.0;
    manifest = w.manifest;
  }

  -- What an event promises, where it can happen: a valid database, with the contents of the map.
  abbrev Follows : (Bytes → Option Bytes) → Option (Db mt) → Type 0
  Follows f none = Unit
  Follows f (some db) = IsValid mt db × ((j : Bytes) → contents mt db j ≡ f j)

  contents-put_begin :
      (h : ℕ) (k v : Bytes) (db : Db mt) (j : Bytes)
      → IsValid mt db
      → db.pending_flush ≡ none
      → contents mt (put_begin mt h k v db) j ≡ (if beq k j then visible v else contents mt db j)
  unfolding contents
  contents-put_begin h k v db j w o =
      ground (arith, newest-put_begin mt h k v db j w.memtable.valid o)

  begin-Follows :
      (h : ℕ) (k v : Bytes) (db : Db mt)
      → KeyNotEmpty k
      → IsValid mt db
      → Follows (λ j. if beq k j then visible v else contents mt db j) (begin h k v db)
  unfolding begin
  begin-Follows h k v db n w = go db.pending_flush refl
    where
      go :
          (o : Option Table)
          → db.pending_flush ≡ o
          → Follows (λ j. if beq k j then visible v else contents mt db j) (begin h k v db)
      go none e =
          rw (Follows, begin, e)
            (put_begin-IsValid h k v db n w, λ j. contents-put_begin h k v db j w e)
      go (some t) e = rw (Follows, begin, e) tt

  Follows-Keeps : (db : Db mt) (r : Option (Db mt)) → Keeps mt db r → Follows (contents mt db) r
  unfolding contents
  Follows-Keeps db none h = tt
  Follows-Keeps db (some next) h = (h.0, λ j. ap see (h.1 j))

  step-Follows :
      (e : Event) (db : Db mt)
      → EventIsFilled e
      → IsValid mt db
      → Follows (spec_step e (contents mt db)) (step e db)
  unfolding step spec_step
  step-Follows (puts h k v) db n w = begin-Follows h k v db n w
  step-Follows (deletes h k) db n w =
      subst
        (λ (o : Option Bytes).
          Follows (λ j. if beq k j then o else contents mt db j) (begin h k tombstone_value db))
        visible_tombstone (begin-Follows h k tombstone_value db n w)
  step-Follows call_ends db n w = (
    put_end-IsValid db db.pending_flush w,
    unfold contents in λ j. ap see (newest-put_end mt db j),
  )
  step-Follows flush_starts db n w = (
    start_flush-IsValid db db.flush_queue db.in_flight w,
    unfold contents in λ j. ap see (newest-start_flush mt db j),
  )
  step-Follows flush_ends db n w = Follows-Keeps db _ (finish_flush-Keeps mt p db w)

  spec_run_ext :
      (es : List Event) (f g : Bytes → Option Bytes)
      → ((j : Bytes) → f j ≡ g j)
      → (j : Bytes) → spec_run es f j ≡ spec_run es g j
  spec_run_ext es f g h j = ap (λ (m : Bytes → Option Bytes). spec_run es m j) (fun_ext h)

  run-Follows :
      (es : List Event) (db : Db mt)
      → All EventIsFilled es
      → IsValid mt db
      → Follows (spec_run es (contents mt db)) (run es db)
  unfolding run spec_run
  run-Follows [] db n w = (w, λ j. refl)
  run-Follows (e ∷ es) db n w = go (step e db) refl (λ next. run-Follows es next n.1)
    where
      go :
          (r : Option (Db mt))
          → step e db ≡ r
          → ((next : Db mt)
              → IsValid mt next
              → Follows (spec_run es (contents mt next)) (run es next))
          → Follows (spec_run (e ∷ es) (contents mt db)) (run (e ∷ es) db)
      go none x more = rw (Follows, run, x) tt
      go (some next) x more =
          let here = subst (Follows (spec_step e (contents mt db))) x (step-Follows e db n.0 w) in
          rw (run, x)
            (subst (λ f. Follows (spec_run es f) (run es next)) (fun_ext here.1) (more next here.0))

  -- Refinement: on a valid database, if the events can happen one after the other, none has the empty
  -- key and none overwrites a file in use, the contents are then those of the map after the calls
  -- alone, whatever the interleaving of the parts of the calls with the flush thread.
  pub contents-run :
      (es : List Event) (db next : Db mt) (j : Bytes)
      → All EventIsFilled es
      → IsValid mt db
      → run es db ≡ some next
      → contents mt next j ≡ spec_run es (contents mt db) j
  contents-run es db next j n w e =
      let done = subst (Follows (spec_run es (contents mt db))) e (run-Follows es db n w) in
      done.1 j

  -- What the events lead to, if they can happen, is valid.
  pub run-IsValid :
      (es : List Event) (db next : Db mt)
      → All EventIsFilled es
      → IsValid mt db
      → run es db ≡ some next
      → IsValid mt next
  run-IsValid es db next n w e =
      let done = subst (Follows (spec_run es (contents mt db))) e (run-Follows es db n w) in done.0

  pub open_fresh-IsValid : (n : ℕ) → IsValid mt (open_fresh mt n)
  unfolding open_fresh
  open_fresh-IsValid n = record {
    memtable = record { valid = mt.new-IsValid; no_empty = mt.get-new [] };
    pending = tt;
    queue = tt;
    flight = tt;
    manifest = record {
      numbered = (refl, tt);
      levels = (record { valid = tt; disjoint = λ e. tt }, tt);
      filled = (tt, tt);
      not_empty = omega arith;
    };
  }

  pub contents-open_fresh : (n : ℕ) (j : Bytes) → contents mt (open_fresh mt n) j ≡ none
  unfolding contents newest open_fresh read_queue Manifest.get Manifest.read_levels Level.get
      Level.read_each
  contents-open_fresh n j = rw (mt.get-new j) refl

  -- From an empty directory, if the events can happen one after the other, none has the empty key and
  -- none overwrites a file in use, and at the end no memtable is on its way to the queue or to a file,
  -- `Get` answers every key as the map that the calls have built.
  pub get-run :
      (n : ℕ) (es : List Event) (next : Db mt) (j : Bytes)
      → All EventIsFilled es
      → run es (open_fresh mt n) ≡ some next
      → next.pending_flush ≡ none
      → next.in_flight ≡ none
      → get mt next j ≡ spec_run es (λ k. none) j
  get-run n es next j h e queued idle =
      get-contents mt next j queued idle
      ∙ contents-run es (open_fresh mt n) next j h (open_fresh-IsValid n) e
      ∙ spec_run_ext es _ _ (contents-open_fresh n) j

  -- If the flush thread takes the only memtable of the queue, a key whose newest value is in that
  -- memtable alone, and no tombstone, is no longer found by `Get`, which answered it before, although
  -- the database still holds it.
  pub get-start_flush :
      (db : Db mt) (t : Table) (k v : Bytes)
      → db.pending_flush ≡ none
      → db.in_flight ≡ none
      → db.flush_queue ≡ t ∷ []
      → mt.get t k ≡ some v
      → is_tombstone v ≡ false
      → mt.get db.memtable k ≡ none
      → Manifest.get db.manifest k ≡ none
      → (get mt db k ≡ some v)
        × (get mt (start_flush mt db) k ≡ none)
        × (contents mt (start_flush mt db) k ≡ some v)
  unfolding get contents newest visible start_flush read_queue
  get-start_flush db t k v o f q h n a m = rw (f, q) (ground arith, ground arith, ground arith)
