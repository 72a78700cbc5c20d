-- ===== src/KvStore/Calls.antt =====
-- The calls of a store keep its index exact.
use moyuan_kv.Prelude.{
  Bool-cases, Option-cases, All, All-append, Bytes, beq_refl, beq, ◌≡◌, refl, sym, ap, ◌∙◌, subst,
  ◌≢◌, inl, inr, true, false, Option, none, some, List, [], ◌∷◌, arith,
}
use moyuan_kv.Db.{visible, is_tombstone}
use moyuan_kv.KvStore.{
  Database, KvResult, ok, is_closed, is_reserved, is_incomplete, is_missing, is_reserved_key,
  contains, erase_key, add_key, Store, put_open, put, delete_open, delete, and_then, batch,
  batch_delete, clear, get,
}
use moyuan_kv.KvStore.Index.{
  is_some, contains-add_key, contains-erase_key, add_key-IsDistinct, erase_key-IsDistinct, IsExact,
  save-index,
}

-- The calls that change a store.
pub data Call : Type 0 where
  puts : Bytes → Bytes → Call
  deletes : Bytes → Call
  batches : List (Bytes × Bytes) → Call
  batch_deletes : List Bytes → Call
  clears : Call

-- No value is spelled like the tombstone.
abbrev pub IsPlainCall : Call → Type 0
IsPlainCall (puts k v) = is_tombstone v ≡ false
IsPlainCall (deletes k) = Unit
IsPlainCall (batches es) = All (λ (e : Bytes × Bytes). is_tombstone e.1 ≡ false) es
IsPlainCall (batch_deletes ks) = Unit
IsPlainCall clears = Unit

All-add_key :
    (P : Bytes → Type 0) (key : Bytes) (ks : List Bytes) → All P ks → P key → All P (add_key key ks)
unfolding add_key
All-add_key P key ks w h = elim (Bool-cases (contains key ks)) [
  | inl e ↦ rw e w
  | inr e ↦ rw e (All-append P ks (key ∷ []) w (h, tt))
]

All-erase_key :
    (P : Bytes → Type 0) (key : Bytes) (ks : List Bytes) → All P ks → All P (erase_key key ks)
unfolding erase_key
All-erase_key P key [] w = tt
All-erase_key P key (k ∷ ks) w = elim (Bool-cases (beq k key)) [
  | inl e ↦ rw e w.1
  | inr e ↦ rw e (w.0, All-erase_key P key ks w.1)
]

visible-plain : (v : Bytes) → is_tombstone v ≡ false → visible v ≡ some v
unfolding visible
visible-plain v h = rw h refl

module _ (base : Database) where
  abbrev pub Holds : Option base.State → List Bytes → Type 0
  Holds none ks = Unit
  Holds (some d) ks = IsExact base d ks

  -- An open store has an exact index.
  abbrev pub IsExactStore : Store base → Type 0
  IsExactStore st = Holds st.db st.known_keys

  put_open-IsExact :
      (key value : Bytes) (d : base.State) (st : Store base)
      → is_reserved_key key ≡ false
      → is_tombstone value ≡ false
      → IsExact base d st.known_keys
      → IsExactStore (put_open base key value d st)
  unfolding put_open is_some
  put_open-IsExact key value d st r v w =
      save-index base (base.put key value d) (add_key key st.known_keys)
        (λ k h.
          rw
            (
              contains-add_key k st.known_keys key,
              base.get-put key value d k,
              visible-plain value v,
            )
            (elim (Bool-cases (beq key k)) [ inl e ↦ rw e refl | inr e ↦ rw e (w.index k h) ]))
        (add_key-IsDistinct st.known_keys key w.distinct)
        (All-add_key _ key st.known_keys w.unreserved r)

  delete_open-IsExact :
      (key : Bytes) (d : base.State) (st : Store base)
      → st.db ≡ some d
      → IsExact base d st.known_keys
      → IsExactStore (delete_open base key d st)
  unfolding delete_open is_some
  delete_open-IsExact key d st o w = elim (Option-cases (base.get d key)) [
    | inl e ↦ rw (delete_open, e) (subst (λ x. Holds x st.known_keys) (sym o) w)
    | inr (p, e) ↦
        rw (delete_open, e)
          (save-index base (base.delete key d) (erase_key key st.known_keys)
            (λ k h.
              rw (contains-erase_key k st.known_keys key w.distinct, base.get-delete key d k)
                (elim (Bool-cases (beq key k)) [ inl f ↦ rw f refl | inr f ↦ rw f (w.index k h) ]))
            (erase_key-IsDistinct st.known_keys key w.distinct)
            (All-erase_key _ key st.known_keys w.unreserved))
  ]

  pub put-IsExactStore :
      (key value : Bytes) (st : Store base)
      → is_tombstone value ≡ false
      → IsExactStore st
      → IsExactStore (put base key value st).1
  unfolding put
  put-IsExactStore key value st v w = go st.db refl
    where
      go : (o : Option base.State) → st.db ≡ o → IsExactStore (put base key value st).1
      go none e = rw (put, e) w
      go (some d) e = elim (Bool-cases (is_reserved_key key)) [
        | inl r ↦ rw (put, e, r) w
        | inr r ↦
            rw (put, e, r)
              (put_open-IsExact key value d st r v (subst (λ x. Holds x st.known_keys) e w))
      ]

  pub delete-IsExactStore :
      (key : Bytes) (st : Store base) → IsExactStore st → IsExactStore (delete base key st).1
  unfolding delete
  delete-IsExactStore key st w = go st.db refl
    where
      go : (o : Option base.State) → st.db ≡ o → IsExactStore (delete base key st).1
      go none e = rw (delete, e) w
      go (some d) e = elim (Bool-cases (is_reserved_key key)) [
        | inl r ↦ rw (delete, e, r) w
        | inr r ↦
            rw (delete, e, r)
              (delete_open-IsExact key d st e (subst (λ x. Holds x st.known_keys) e w))
      ]

  -- A loop goes on from a store with an exact index, or stops at one.
  pub and_then-IsExactStore :
      (r : KvResult × Store base) (next : Store base → KvResult × Store base)
      → IsExactStore r.1
      → ((st : Store base) → IsExactStore st → IsExactStore (next st).1)
      → IsExactStore (and_then base r next).1
  unfolding and_then
  and_then-IsExactStore (ok, st) next w h = h st w
  and_then-IsExactStore (is_closed, st) next w h = w
  and_then-IsExactStore (is_reserved, st) next w h = w
  and_then-IsExactStore (is_incomplete, st) next w h = w
  and_then-IsExactStore (is_missing, st) next w h = w

  pub batch-IsExactStore :
      (es : List (Bytes × Bytes)) (st : Store base)
      → All (λ (e : Bytes × Bytes). is_tombstone e.1 ≡ false) es
      → IsExactStore st
      → IsExactStore (batch base es st).1
  unfolding batch
  batch-IsExactStore [] st v w = w
  batch-IsExactStore ((key, value) ∷ es) st v w =
      and_then-IsExactStore (put base key value st) (batch base es)
        (put-IsExactStore key value st v.0 w) (λ u x. batch-IsExactStore es u v.1 x)

  pub batch_delete-IsExactStore :
      (ks : List Bytes) (st : Store base)
      → IsExactStore st
      → IsExactStore (batch_delete base ks st).1
  unfolding batch_delete
  batch_delete-IsExactStore [] st w = w
  batch_delete-IsExactStore (key ∷ ks) st w =
      and_then-IsExactStore (delete base key st) (batch_delete base ks)
        (delete-IsExactStore key st w) (λ u x. batch_delete-IsExactStore ks u x)

  unfoldable pub call : Call → Store base → KvResult × Store base
  call (puts k v) st = put base k v st
  call (deletes k) st = delete base k st
  call (batches es) st = batch base es st
  call (batch_deletes ks) st = batch_delete base ks st
  call clears st = clear base st

  -- A call keeps the index exact, whether it succeeds, fails, or stops within a batch.
  pub call-IsExactStore :
      (c : Call) (st : Store base) → IsPlainCall c → IsExactStore st → IsExactStore (call c st).1
  unfolding call clear
  call-IsExactStore (puts k v) st p w = put-IsExactStore k v st p w
  call-IsExactStore (deletes k) st p w = delete-IsExactStore k st w
  call-IsExactStore (batches es) st p w = batch-IsExactStore es st p w
  call-IsExactStore (batch_deletes ks) st p w = batch_delete-IsExactStore ks st w
  call-IsExactStore clears st p w = batch_delete-IsExactStore st.known_keys st w

  -- What calls without a value that is spelled like the tombstone, and the flush thread between them,
  -- make of a store.
  pub data Steps (st : Store base) : Store base → Type 0 where
    stays : Steps st st
    calls :
        (c : Call) (next : Store base) → IsPlainCall c → Steps st next → Steps st (call c next).1
    settles :
        (next : Store base) (d e : base.State)
        → next.db ≡ some d
        → base.Settles d e
        → Steps st next
        → Steps st (record next { db = some e })

  -- The deletion of the first of the known keys.
  delete-first :
      (k : Bytes) (ks : List Bytes) (d : base.State) (st : Store base)
      → st.db ≡ some d
      → st.known_keys ≡ k ∷ ks
      → IsExact base d st.known_keys
      → ((delete base k st).0 ≡ ok)
        × ((delete base k st).1.known_keys ≡ ks)
        × ((d : base.State) × ((delete base k st).1.db ≡ some d))
  unfolding delete delete_open is_some contains erase_key
  delete-first k ks d st o e w =
      let exact = subst (IsExact base d) e w in
      let open_key : is_reserved_key k ≡ false = exact.unreserved.0 in
      let present : is_some (base.get d k) ≡ true =
        sym (exact.index k open_key) ∙ rw (beq_refl k) refl in
      elim (Option-cases (base.get d k)) [
        | inl n ↦ absurd (ground (arith, ap is_some n, present))
        | inr (p, f) ↦
            rw (delete, o, open_key, delete_open, f)
              (refl, ap (erase_key k) e ∙ rw (beq_refl k) refl, (_, refl))
      ]

  and_then-ok :
      (r : KvResult × Store base) (next : Store base → KvResult × Store base)
      → r.0 ≡ ok
      → and_then base r next ≡ next r.1
  unfolding and_then
  and_then-ok (ok, st) next e = refl
  and_then-ok (is_closed, st) next e = let differ : is_closed ≢ ok = λ f. cc in absurd (differ e)
  and_then-ok (is_reserved, st) next e =
      let differ : is_reserved ≢ ok = λ f. cc in absurd (differ e)
  and_then-ok (is_incomplete, st) next e =
      let differ : is_incomplete ≢ ok = λ f. cc in absurd (differ e)
  and_then-ok (is_missing, st) next e = let differ : is_missing ≢ ok = λ f. cc in absurd (differ e)

  -- What is left when every known key is deleted.
  abbrev pub Emptied : KvResult × Store base → Type 0
  Emptied r =
      (r.0 ≡ ok)
      × (r.1.known_keys ≡ [])
      × ((k : Bytes) → is_reserved_key k ≡ false → get base r.1 k ≡ none)

  nothing_left :
      (st : Store base) (d : base.State)
      → st.db ≡ some d
      → st.known_keys ≡ []
      → IsExactStore st
      → (k : Bytes) → is_reserved_key k ≡ false
      → get base st k ≡ none
  unfolding get is_some contains
  nothing_left st d o e w k h =
      let exact = subst (λ x. Holds x st.known_keys) o w in
      let index = subst (λ x. contains k x ≡ is_some (base.get d k)) e (exact.index k h) in
      rw (get, o)
        (elim (Option-cases (base.get d k)) [
          | inl n ↦ n
          | inr (v, f) ↦ absurd (ground (arith, ap is_some f, index))
        ])

  delete_all-Emptied :
      (ks : List Bytes) (st : Store base) (d : base.State)
      → st.db ≡ some d
      → st.known_keys ≡ ks
      → IsExactStore st
      → Emptied (batch_delete base ks st)
  unfolding batch_delete
  delete_all-Emptied [] st d o e w = (refl, e, nothing_left st d o e w)
  delete_all-Emptied (k ∷ ks) st d o e w =
      let first = delete-first k ks d st o e (subst (λ x. Holds x st.known_keys) o w) in
      subst Emptied (sym (and_then-ok (delete base k st) (batch_delete base ks) first.0)) (
        delete_all-Emptied ks (delete base k st).1 first.2.0 first.2.1 first.1
          (delete-IsExactStore k st w))

  -- `Clear` of an open store with an exact index succeeds, and leaves no known key and no value under a
  -- key that is not reserved, if no memtable is on its way to the flush queue or to a file while it runs.
  pub clear-Emptied :
      (st : Store base) (d : base.State)
      → st.db ≡ some d
      → IsExactStore st
      → Emptied (clear base st)
  unfolding clear
  clear-Emptied st d o w = delete_all-Emptied st.known_keys st d o refl w
