-- ===== src/KvStore/Listing.antt =====
-- What a store with an exact index lists.
use moyuan_kv.Prelude.{
  if◌then◌else◌, Bool-cases, Option-cases, Bytes, beq_refl, beq→eq, beq, ◌≡◌, refl, ◌∙◌, inl, inr,
  false, ◌&&◌, Option, none, some, List, [], ◌∷◌, arith,
}
use moyuan_kv.KeyIndex.{insert_sorted, sort, has_prefix, matching_keys, list_keys_by_prefix}
use moyuan_kv.KvStore.{
  Database, is_reserved_key, contains, Store, get, collect_entries, list_entries_by_prefix,
}
use moyuan_kv.KvStore.Index.{is_some, IsExact}

-- The value that a list of entries has for a key.
unfoldable pub value_in : Bytes → List (Bytes × Bytes) → Option Bytes
value_in key [] = none
value_in key (e ∷ es) = if beq e.0 key then some e.1 else value_in key es

contains-insert_sorted :
    (k x : Bytes) (ks : List Bytes) → contains k (insert_sorted x ks) ≡ contains k (x ∷ ks)
unfolding insert_sorted contains
contains-insert_sorted k x [] = refl
contains-insert_sorted k x (y ∷ ks) = ground (arith, contains-insert_sorted k x ks)

contains-sort : (k : Bytes) (ks : List Bytes) → contains k (sort ks) ≡ contains k ks
unfolding sort contains
contains-sort k [] = refl
contains-sort k (x ∷ ks) =
    contains-insert_sorted k x (sort ks) ∙ unfold contains in rw (contains-sort k ks) refl

contains-matching_keys :
    (prefix k : Bytes) (ks : List Bytes)
    → contains k (matching_keys prefix ks) ≡ (has_prefix prefix k && contains k ks)
unfolding matching_keys contains
contains-matching_keys prefix k [] = ground arith
contains-matching_keys prefix k (x ∷ ks) = elim (Bool-cases (beq x k)) [
  | inl e ↦
      rw (beq→eq x k e, beq_refl k)
        (elim (Bool-cases (has_prefix prefix k)) [
          | inl p ↦ rw (p, beq_refl k) refl
          | inr p ↦ rw p (contains-matching_keys prefix k ks ∙ rw p refl)
        ])
  | inr e ↦ ground (arith, e, contains-matching_keys prefix k ks)
]

module _ (base : Database) where
  value_in-collect_entries :
      (st : Store base) (k : Bytes) (ks : List Bytes)
      → value_in k (collect_entries base st ks) ≡ (if contains k ks then get base st k else none)
  unfolding value_in collect_entries contains
  value_in-collect_entries st k [] = refl
  value_in-collect_entries st k (x ∷ ks) =
      let rest = value_in-collect_entries st k ks in
      elim (Bool-cases (beq x k)) [
        | inl e ↦
            rw (e, beq→eq x k e)
              (elim (Option-cases (get base st k)) [
                | inl g ↦ rw (collect_entries, g) (rest ∙ rw g (ground arith))
                | inr (v, g) ↦ rw (collect_entries, g, beq_refl k) refl
              ])
        | inr e ↦ rw e (elim (Option-cases (get base st x)) [
          | inl g ↦ rw (collect_entries, g) rest
          | inr (v, g) ↦ rw (collect_entries, g, e) rest
        ])
      ]

  -- The entries that `ListEntriesByPrefix` of an open store with an exact index returns have a value for
  -- a key that is not reserved just if the key has the prefix, and then the value that `Get` returns.
  pub value_in-list_entries :
      (st : Store base) (d : base.State) (prefix k : Bytes)
      → st.db ≡ some d
      → IsExact base d st.known_keys
      → is_reserved_key k ≡ false
      → value_in k (list_entries_by_prefix base st prefix)
        ≡ (if has_prefix prefix k then get base st k else none)
  unfolding list_entries_by_prefix list_keys_by_prefix is_some get
  value_in-list_entries st d prefix k o w r =
      let known = w.index k r in
      let open_get : get base st k ≡ base.get d k = rw (get, o) refl in
      rw (list_entries_by_prefix, o)
        (value_in-collect_entries st k (sort (matching_keys prefix st.known_keys))
          ∙ rw
              (
                contains-sort k (matching_keys prefix st.known_keys),
                contains-matching_keys prefix k st.known_keys,
                known,
                open_get,
              )
              (ground arith))
