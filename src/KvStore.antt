-- ===== src/KvStore.antt =====
-- `DBKVStore` of mokv/kvstore.cpp: the key-value interface over a database, with the index of its keys,
-- which it keeps in memory and under a reserved key. A call is one step. `Close` gives the database up,
-- so `closed_` is the absence of `db`.

pub mod Index
pub mod Calls
pub mod Listing
pub mod Reads
pub mod Databases
use moyuan_kv.Prelude.{
  if◌then◌else◌, length, Bytes, beq, ℕ, ◌+◌, ◌-◌, ◌%◌, ◌≡◌, Bool, true, false, Option, none, some,
  List, [], ◌∷◌, ◌++◌,
}
use moyuan_kv.Db.{visible}
use moyuan_kv.KeyIndex.{serialize_keys, deserialize_keys, has_prefix, list_keys_by_prefix}

-- What the store calls of a `DB`, and what it relies on: a call sees the calls before it. That holds of
-- `Db` in the states in which no memtable is on its way to the flush queue or to a file; the module
-- Databases fills the record with them. `Settles` is what the flush thread may do between two calls.
pub record Database : Type 1 where
  pub State : Type 0
  pub get : State → Bytes → Option Bytes
  pub put : Bytes → Bytes → State → State
  pub delete : Bytes → State → State
  pub Settles : State → State → Type 0
  pub get-put :
      (k v : Bytes) (s : State) (j : Bytes)
      → get (put k v s) j ≡ (if beq k j then visible v else get s j)
  pub get-delete :
      (k : Bytes) (s : State) (j : Bytes) → get (delete k s) j ≡ (if beq k j then none else get s j)
  pub get-Settles : (s t : State) → Settles s t → (j : Bytes) → get t j ≡ get s j

-- `KVResult`, by the message of a failure: "DBKVStore is closed", or "reserved key prefix is managed by
-- mokv", or a message of mokv/llm/store.hpp: a record without what identifies it, or "conversation not
-- found". The store never
-- redirects to a leader.
pub data KvResult : Type 0 where
  ok : KvResult
  is_closed : KvResult
  is_reserved : KvResult
  is_incomplete : KvResult
  is_missing : KvResult

-- "__mokv__:"
abbrev pub reserved_prefix : Bytes
reserved_prefix = b'_' ∷ b'_' ∷ b'm' ∷ b'o' ∷ b'k' ∷ b'v' ∷ b'_' ∷ b'_' ∷ b':' ∷ []

-- `kMetaKeyIndex`, "__mokv__:meta:key_index".
abbrev pub meta_key_index : Bytes
meta_key_index =
    b'_' ∷ b'_' ∷ b'm' ∷ b'o' ∷ b'k' ∷ b'v' ∷ b'_' ∷ b'_' ∷ b':' ∷ b'm' ∷ b'e' ∷ b't' ∷ b'a' ∷ b':'
    ∷ b'k' ∷ b'e' ∷ b'y' ∷ b'_' ∷ b'i' ∷ b'n' ∷ b'd' ∷ b'e' ∷ b'x' ∷ []

-- `IsReservedKey`.
unfoldable pub is_reserved_key : Bytes → Bool
is_reserved_key key = has_prefix reserved_prefix key

-- `std::find(…) != end()` over the known keys.
unfoldable pub contains : Bytes → List Bytes → Bool
contains key [] = false
contains key (k ∷ keys) = if beq k key then true else contains key keys

-- `erase` of what `std::find` finds.
unfoldable pub erase_key : Bytes → List Bytes → List Bytes
erase_key key [] = []
erase_key key (k ∷ keys) = if beq k key then keys else k ∷ erase_key key keys

unfoldable pub add_key : Bytes → List Bytes → List Bytes
add_key key keys = if contains key keys then keys else keys ++ key ∷ []

-- `size_t` arithmetic.
abbrev pub wrap : ℕ → ℕ
wrap n = n % 18446744073709551616

-- `tracked_bytes_size_ -= key.size() + previous->size()`, if there is a previous value.
unfoldable pub untrack : Bytes → Option Bytes → ℕ → ℕ
untrack key none n = n
untrack key (some previous) n =
    wrap (n + (18446744073709551616 - wrap (length key + length previous)))

module _ (base : Database) where
  pub record Store : Type 0 where
    pub db : Option base.State
    pub known_keys : List Bytes
    pub tracked_bytes_size : ℕ

  unfoldable pub get : Store → Bytes → Option Bytes
  get st key = elim st.db [ none ↦ none | some d ↦ base.get d key ]

  -- `Put` behind its tests.
  unfoldable pub put_open : Bytes → Bytes → base.State → Store → Store
  put_open key value d st =
      let known = add_key key st.known_keys in
      record {
        db = some (base.put meta_key_index (serialize_keys known) (base.put key value d));
        known_keys = known;
        tracked_bytes_size =
            wrap (untrack key (base.get d key) st.tracked_bytes_size + (length key + length value));
      }

  unfoldable pub put : Bytes → Bytes → Store → KvResult × Store
  put key value st = elim st.db [
    | none ↦ (is_closed, st)
    | some d ↦ if is_reserved_key key then (is_reserved, st) else (ok, put_open key value d st)
  ]

  -- `Delete` behind its tests.
  unfoldable pub delete_open : Bytes → base.State → Store → Store
  delete_open key d st = elim (base.get d key) [
    | none ↦ st
    | some previous ↦
        let known = erase_key key st.known_keys in
        record {
          db = some (base.put meta_key_index (serialize_keys known) (base.delete key d));
          known_keys = known;
          tracked_bytes_size = untrack key (some previous) st.tracked_bytes_size;
        }
  ]

  unfoldable pub delete : Bytes → Store → KvResult × Store
  delete key st = elim st.db [
    | none ↦ (is_closed, st)
    | some d ↦ if is_reserved_key key then (is_reserved, st) else (ok, delete_open key d st)
  ]

  -- What a loop does with the result of a call: it goes on after a success, and returns a failure.
  unfoldable pub and_then : KvResult × Store → (Store → KvResult × Store) → KvResult × Store
  and_then (ok, st) next = next st
  and_then (is_closed, st) next = (is_closed, st)
  and_then (is_reserved, st) next = (is_reserved, st)
  and_then (is_incomplete, st) next = (is_incomplete, st)
  and_then (is_missing, st) next = (is_missing, st)

  unfoldable pub batch : List (Bytes × Bytes) → Store → KvResult × Store
  batch [] st = (ok, st)
  batch ((key, value) ∷ entries) st = and_then (put key value st) (batch entries)

  unfoldable pub batch_delete : List Bytes → Store → KvResult × Store
  batch_delete [] st = (ok, st)
  batch_delete (key ∷ keys) st = and_then (delete key st) (batch_delete keys)

  -- The loop of `Clear` is that of `BatchDelete`, over a copy of the known keys.
  unfoldable pub clear : Store → KvResult × Store
  clear st = batch_delete st.known_keys st

  unfoldable pub collect_entries : Store → List Bytes → List (Bytes × Bytes)
  collect_entries st [] = []
  collect_entries st (key ∷ keys) =
      let rest = collect_entries st keys in
      elim (get st key) [ none ↦ rest | some value ↦ (key, value) ∷ rest ]

  unfoldable pub list_entries_by_prefix : Store → Bytes → List (Bytes × Bytes)
  list_entries_by_prefix st prefix = elim st.db [
    | none ↦ []
    | some d ↦ collect_entries st (list_keys_by_prefix prefix st.known_keys)
  ]

  -- `Close`.
  unfoldable pub close : Store → Store
  close st = record { db = none; known_keys = []; tracked_bytes_size = 0 }

  -- The loop of `LoadKeyIndex`.
  unfoldable pub track_all : base.State → List Bytes → ℕ → ℕ
  track_all d [] n = n
  track_all d (key ∷ keys) n = elim (base.get d key) [
    | none ↦ track_all d keys n
    | some value ↦ track_all d keys (wrap (n + (length key + length value)))
  ]

  -- `LoadKeyIndex` of the constructor, on a database that was opened in the given state.
  unfoldable pub open_store : base.State → Store
  open_store d = elim (base.get d meta_key_index) [
    | none ↦ record { db = some d; known_keys = []; tracked_bytes_size = 0 }
    | some payload ↦
        let known = deserialize_keys payload in
        record { db = some d; known_keys = known; tracked_bytes_size = track_all d known 0 }
  ]
