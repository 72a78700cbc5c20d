-- ===== src/KvStore/Databases.antt =====
-- `Db` as the database of a key-value store: its states in which no memtable is on its way to the flush
-- queue or to a file, with whole calls of `Put`, and whole rounds of the flush thread between them.
use moyuan_kv.Prelude.{
  leb, if◌then◌else◌, Bool-cases, Bytes, beq, ℕ, ◌≡◌, refl, sym, ap, ◌∙◌, subst, inl, inr, Option,
  none, some, arith,
}
use moyuan_kv.Lsm.Sst.{TableParams}
use moyuan_kv.MemTable.{MemTable}
use moyuan_kv.Db
use moyuan_kv.Db.{
  Db, visible, tombstone_value, take_full, put_begin, put_end, start_flush, finish_flush,
}
use moyuan_kv.Db.Contents.{
  IsValid, contents, see, Keeps, newest-put_begin, newest-put_end, newest-start_flush,
  finish_flush-Keeps, get-contents,
}
use moyuan_kv.Db.Run.{start_flush-IsValid, visible_tombstone}
use moyuan_kv.KvStore.{Database}

module _ (mt : MemTable) where
  open mt use {Table}

  pub record IsCalm (db : Db mt) : Type 0 where
    pub memtable : mt.IsValid db.memtable
    pub queued : db.pending_flush ≡ none
    pub idle : db.in_flight ≡ none

  pub record CalmDb : Type 0 where
    pub db : Db mt
    pub calm : IsCalm db

  put_begin-memtable :
      (h : ℕ) (k v : Bytes) (db : Db mt)
      → mt.IsValid db.memtable
      → mt.IsValid (put_begin mt h k v db).memtable
        × ((put_begin mt h k v db).in_flight ≡ db.in_flight)
  unfolding put_begin take_full
  put_begin-memtable h k v db w =
      elim (Bool-cases (leb (mt.binary_size (mt.put h k v db.memtable)) db.memtable_max_size)) [
        | inl e ↦ rw e (mt.put-IsValid h k v db.memtable w, refl)
        | inr e ↦ rw e (mt.new-IsValid, refl)
      ]

  put_end-IsCalm :
      (db : Db mt) (f : Option Table)
      → mt.IsValid db.memtable
      → db.in_flight ≡ none
      → IsCalm (put_end mt (record db { pending_flush = f }))
  unfolding put_end
  put_end-IsCalm db none w e = record { memtable = w; queued = refl; idle = e }
  put_end-IsCalm db (some t) w e = record { memtable = w; queued = refl; idle = e }

  pub put-IsCalm : (h : ℕ) (k v : Bytes) (db : Db mt) → IsCalm db → IsCalm (Db.put mt h k v db)
  unfolding Db.put
  put-IsCalm h k v db c =
      let begun = put_begin-memtable h k v db c.memtable in
      put_end-IsCalm (put_begin mt h k v db) (put_begin mt h k v db).pending_flush begun.0
        (begun.1 ∙ c.idle)

  pub get-calm : (s : CalmDb) (j : Bytes) → Db.get mt s.db j ≡ contents mt s.db j
  get-calm s j = get-contents mt s.db j s.calm.queued s.calm.idle

  contents-put :
      (h : ℕ) (k v : Bytes) (db : Db mt) (j : Bytes)
      → IsCalm db
      → contents mt (Db.put mt h k v db) j ≡ (if beq k j then visible v else contents mt db j)
  unfolding Db.put contents
  contents-put h k v db j c =
      ap see (newest-put_end mt (put_begin mt h k v db) j)
      ∙ ground (arith, newest-put_begin mt h k v db j c.memtable c.queued)

  module _ (p : TableParams) (height : ℕ) where
    -- A round of the flush thread from a valid state. Every write draws the same height.
    abbrev pub Round : CalmDb → CalmDb → Type 0
    Round s t = IsValid mt s.db × (finish_flush mt p (start_flush mt s.db) ≡ some t.db)

    pub get-Round : (s t : CalmDb) → Round s t → (j : Bytes) → Db.get mt t.db j ≡ Db.get mt s.db j
    get-Round s t r j =
        let started = start_flush-IsValid mt p s.db s.db.flush_queue s.db.in_flight r.0 in
        let kept =
          subst (Keeps mt (start_flush mt s.db)) r.1
            (finish_flush-Keeps mt p (start_flush mt s.db) started) in
        get-calm t j
        ∙ unfold contents in ap see (kept.1 j ∙ newest-start_flush mt s.db j) ∙ sym (get-calm s j)

    pub get-put-calm :
        (k v : Bytes) (s : CalmDb) (j : Bytes)
        → Db.get mt (Db.put mt height k v s.db) j
          ≡ (if beq k j then visible v else Db.get mt s.db j)
    get-put-calm k v s j =
        let after = put-IsCalm height k v s.db s.calm in
        get-contents mt (Db.put mt height k v s.db) j after.queued after.idle
        ∙ contents-put height k v s.db j s.calm
        ∙ ap (λ o. if beq k j then visible v else o) (sym (get-calm s j))

    pub get-delete-calm :
        (k : Bytes) (s : CalmDb) (j : Bytes)
        → Db.get mt (Db.put mt height k tombstone_value s.db) j
          ≡ (if beq k j then none else Db.get mt s.db j)
    get-delete-calm k s j =
        get-put-calm k tombstone_value s j
        ∙ ap (λ o. if beq k j then o else Db.get mt s.db j) visible_tombstone

    -- `Db`, with its own `Get` and `Put`; `Delete` is `Put` of the tombstone.
    abbrev pub calm_database : Database
    calm_database = record {
      State = CalmDb;
      get = λ s k. Db.get mt s.db k;
      put = λ k v s. record {
        db = Db.put mt height k v s.db;
        calm = put-IsCalm height k v s.db s.calm;
      };
      delete = λ k s. record {
        db = Db.put mt height k tombstone_value s.db;
        calm = put-IsCalm height k tombstone_value s.db s.calm;
      };
      Settles = Round;
      get-put = λ k v s j. get-put-calm k v s j;
      get-delete = λ k s j. get-delete-calm k s j;
      get-Settles = get-Round;
    }
