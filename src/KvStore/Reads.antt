-- ===== src/KvStore/Reads.antt =====
-- What a read of a store sees after a write.
use moyuan_kv.Prelude.{if◌then◌else◌, Bytes, beq_refl, beq, ◌≡◌, refl, ◌∙◌, false, some}
use moyuan_kv.Db.{visible, is_tombstone}
use moyuan_kv.KeyIndex.{serialize_keys}
use moyuan_kv.KvStore.{
  Database, ok, meta_key_index, is_reserved_key, add_key, Store, get, put_open, put,
}
use moyuan_kv.KvStore.Index.{meta_apart}

visible-plain : (v : Bytes) → is_tombstone v ≡ false → visible v ≡ some v
unfolding visible
visible-plain v h = rw h refl

module _ (base : Database) where
  get-put_open :
      (k v : Bytes) (d : base.State) (st : Store base) (j : Bytes)
      → is_reserved_key j ≡ false
      → get base (put_open base k v d st) j ≡ (if beq k j then visible v else base.get d j)
  unfolding get put_open
  get-put_open k v d st j h =
      base.get-put meta_key_index (serialize_keys (add_key k st.known_keys)) (base.put k v d) j
      ∙ rw (meta_apart j h) (base.get-put k v d j)

  put-open :
      (k v : Bytes) (d : base.State) (st : Store base)
      → st.db ≡ some d
      → is_reserved_key k ≡ false
      → put base k v st ≡ (ok, put_open base k v d st)
  unfolding put put_open
  put-open k v d st o h = rw (put, o, h) refl

  -- A write to an open store under a key that is not reserved, of a value that is not spelled like
  -- the tombstone, succeeds, and is read back under its key.
  pub get-put :
      (k v : Bytes) (st : Store base) (d : base.State)
      → st.db ≡ some d
      → is_reserved_key k ≡ false
      → is_tombstone v ≡ false
      → ((put base k v st).0 ≡ ok) × (get base (put base k v st).1 k ≡ some v)
  get-put k v st d o h p =
      rw (put-open k v d st o h)
        (refl, get-put_open k v d st k h ∙ rw (beq_refl k) (visible-plain v p))
