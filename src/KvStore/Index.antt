-- ===== src/KvStore/Index.antt =====
-- The key index of a store: it has exactly the keys that the database has a value for.
use moyuan_kv.Prelude.{
  ◌==◌, if◌then◌else◌, Bool-cases, All, Bytes, beq_refl, beq_comm, beq→eq, beq, ◌≡◌, refl, sym, ap,
  ◌∙◌, ◌⊎◌, inl, inr, Bool, true, false, Option, none, some, List, [], ◌∷◌, ◌++◌, arith,
}
use moyuan_kv.Codec.{newline, escape}
use moyuan_kv.Db.{visible, is_tombstone, tombstone_value}
use moyuan_kv.KeyIndex.{serialize_keys, serialize_sorted, sort, has_prefix}
use moyuan_kv.KeyIndex.Reload.{filled_keys, deserialize-serialize_keys}
use moyuan_kv.KvStore.{
  Database, meta_key_index, is_reserved_key, contains, erase_key, add_key, open_store,
}

unfoldable pub is_some {ℓ} : {A : Type ℓ} → Option A → Bool
is_some none = false
is_some (some a) = true

abbrev pub IsDistinct : List Bytes → Type 0
IsDistinct [] = Unit
IsDistinct (k ∷ ks) = (contains k ks ≡ false) × IsDistinct ks

-- The test of `contains` on one key decides by the other.
beq_swap : (a b c : Bytes) → beq a b ≡ true → beq a c ≡ beq b c
beq_swap a b c e = ap (λ (x : Bytes). beq x c) (beq→eq a b e)

contains-append :
    (k : Bytes) (ks : List Bytes) (key : Bytes)
    → contains k (ks ++ key ∷ []) ≡ (if beq key k then true else contains k ks)
unfolding contains
contains-append k [] key = refl
contains-append k (x ∷ ks) key = elim (Bool-cases (beq x k)) [
  | inl e ↦ rw e (both (beq key k))
  | inr e ↦ rw e (contains-append k ks key)
]
  where
    both : (b : Bool) → true ≡ (if b then true else true)
    both true = refl
    both false = refl

contains-same : (a b : Bytes) (ks : List Bytes) → beq a b ≡ true → contains b ks ≡ contains a ks
contains-same a b ks e = ap (λ (x : Bytes). contains x ks) (sym (beq→eq a b e))

pub contains-add_key :
    (k : Bytes) (ks : List Bytes) (key : Bytes)
    → contains k (add_key key ks) ≡ (if beq key k then true else contains k ks)
unfolding add_key
contains-add_key k ks key = elim (Bool-cases (contains key ks)) [
  | inl e ↦ rw e (elim (Bool-cases (beq key k)) [
    | inl f ↦ rw f (contains-same key k ks f ∙ e)
    | inr f ↦ rw f refl
  ])
  | inr e ↦ rw e (contains-append k ks key)
]

pub contains-erase_key :
    (k : Bytes) (ks : List Bytes) (key : Bytes)
    → IsDistinct ks
    → contains k (erase_key key ks) ≡ (if beq key k then false else contains k ks)
unfolding contains erase_key
contains-erase_key k [] key d = elim (Bool-cases (beq key k)) [
  | inl e ↦ rw e refl
  | inr e ↦ rw e refl
]
contains-erase_key k (x ∷ ks) key d = elim (Bool-cases (beq x key)) [
  | inl e ↦
      rw (e, beq_swap x key k e)
        (elim (Bool-cases (beq key k)) [
          | inl f ↦ rw f (contains-same key k ks f ∙ contains-same x key ks e ∙ d.0)
          | inr f ↦ rw f refl
        ])
  | inr e ↦
      rw (e, contains-erase_key k ks key d.1)
        (elim (Bool-cases (beq x k)) [
          | inl f ↦
              let differ : beq key k ≡ false = elim (Bool-cases (beq key k)) [
                | inl g ↦ absurd (ground (arith, e, beq_comm key k, g, beq_swap x k key f))
                | inr g ↦ g
              ] in
              rw (f, differ) refl
          | inr f ↦ rw f refl
        ])
]

pub add_key-IsDistinct :
    (ks : List Bytes) (key : Bytes) → IsDistinct ks → IsDistinct (add_key key ks)
unfolding add_key contains
add_key-IsDistinct ks key d = elim (Bool-cases (contains key ks)) [
  | inl e ↦ rw e d
  | inr e ↦ rw e (at_end ks d e)
]
  where
    at_end :
        (ks : List Bytes) → IsDistinct ks → contains key ks ≡ false → IsDistinct (ks ++ key ∷ [])
    at_end [] d = λ e. (refl, tt)
    at_end (k ∷ ks) d = elim (Bool-cases (beq k key)) [
      | inl f ↦ rw f (λ e. absurd (ground (arith, e)))
      | inr f ↦ rw f (λ e. (contains-append k ks key ∙ rw (beq_comm key k, f) d.0, at_end ks d.1 e))
    ]

pub erase_key-IsDistinct :
    (ks : List Bytes) (key : Bytes) → IsDistinct ks → IsDistinct (erase_key key ks)
unfolding erase_key
erase_key-IsDistinct [] key d = tt
erase_key-IsDistinct (k ∷ ks) key d = elim (Bool-cases (beq k key)) [
  | inl e ↦ rw e d.1
  | inr e ↦ rw e (apart, erase_key-IsDistinct ks key d.1)
]
  where
    apart : contains k (erase_key key ks) ≡ false
    apart = contains-erase_key k ks key d.1 ∙ either (beq key k)
      where
        either : (b : Bool) → (if b then false else contains k ks) ≡ false
        either true = refl
        either false = d.0

-- A text with a newline, as every list of keys but the empty one is.
unfoldable has_newline : Bytes → Bool
has_newline [] = false
has_newline (ch ∷ s) = if ch == newline then true else has_newline s

has_newline-append : (xs ys : Bytes) → has_newline (xs ++ newline ∷ ys) ≡ true
unfolding has_newline
has_newline-append [] ys = refl
has_newline-append (x ∷ xs) ys = elim (Bool-cases (x == newline)) [
  | inl e ↦ rw e refl
  | inr e ↦ rw e (has_newline-append xs ys)
]

has_newline-tombstone : has_newline tombstone_value ≡ false
unfolding has_newline
has_newline-tombstone = refl

serialize_sorted-shown : (ks : List Bytes) → beq (serialize_sorted ks) tombstone_value ≡ false
unfolding serialize_sorted beq
serialize_sorted-shown [] = refl
serialize_sorted-shown (k ∷ ks) =
    elim (Bool-cases (beq (escape k ++ newline ∷ serialize_sorted ks) tombstone_value)) [
      | inl e ↦
          let same = beq→eq (escape k ++ newline ∷ serialize_sorted ks) tombstone_value e in
          absurd (
            ground (
              arith,
              has_newline-append (escape k) (serialize_sorted ks),
              ap has_newline same,
              has_newline-tombstone,
            ))
      | inr e ↦ e
    ]

-- An index is never taken for a tombstone.
pub visible-serialize_keys :
    (ks : List Bytes) → visible (serialize_keys ks) ≡ some (serialize_keys ks)
unfolding visible is_tombstone serialize_keys
visible-serialize_keys ks = rw (serialize_sorted-shown (sort ks)) refl

meta_reserved : is_reserved_key meta_key_index ≡ true
unfolding is_reserved_key has_prefix
meta_reserved = refl

pub meta_apart : (k : Bytes) → is_reserved_key k ≡ false → beq meta_key_index k ≡ false
meta_apart k h = elim (Bool-cases (beq meta_key_index k)) [
  | inl e ↦
      absurd (ground (arith, meta_reserved, h, ap is_reserved_key (beq→eq meta_key_index k e)))
  | inr e ↦ e
]

empty_keys : (known : List Bytes) → known ≡ [] → [] ≡ filled_keys (sort known)
unfolding filled_keys sort
empty_keys known e = ap (λ x. filled_keys (sort x)) (sym e)

module _ (base : Database) where
  -- The index has the keys that the database answers for, once each, and is saved under its own key.
  pub record IsExact (d : base.State) (known : List Bytes) : Type 0 where
    pub index : (k : Bytes) → is_reserved_key k ≡ false → contains k known ≡ is_some (base.get d k)
    pub distinct : IsDistinct known
    pub unreserved : All (λ k. is_reserved_key k ≡ false) known
    pub saved :
        ((known ≡ []) × (base.get d meta_key_index ≡ none))
        ⊎ (base.get d meta_key_index ≡ some (serialize_keys known))

  -- The write of the index itself.
  pub save-index :
      (d : base.State) (known : List Bytes)
      → ((k : Bytes) → is_reserved_key k ≡ false → contains k known ≡ is_some (base.get d k))
      → IsDistinct known
      → All (λ k. is_reserved_key k ≡ false) known
      → IsExact (base.put meta_key_index (serialize_keys known) d) known
  save-index d known index distinct unreserved = record {
    index = λ k h.
        rw (base.get-put meta_key_index (serialize_keys known) d k, meta_apart k h) (index k h);
    distinct = distinct;
    unreserved = unreserved;
    saved = inr (
        base.get-put meta_key_index (serialize_keys known) d meta_key_index
        ∙ rw (beq_refl meta_key_index) (visible-serialize_keys known));
  }

  -- Opening a store again gives the known keys in their order, but for the empty key, for whatever
  -- bytes the keys have.
  pub known_keys-open_store :
      (d : base.State) (known : List Bytes)
      → IsExact d known
      → (open_store base d).known_keys ≡ filled_keys (sort known)
  unfolding open_store
  known_keys-open_store d known w = elim w.saved [
    | inl (e, f) ↦ rw (open_store, f) (empty_keys known e)
    | inr f ↦ rw (open_store, f) (deserialize-serialize_keys known)
  ]
