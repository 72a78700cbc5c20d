-- ===== src/MemTable.antt =====
-- The interface of `MemTable` (mokv/lsm/memtable.hpp): the operations that the database calls, with
-- what it relies on. The implementation passes every call on to the skip list of
-- mokv/lsm/skiplist.hpp; what it draws for the height of a node is the first argument of `put`.
pub mod SkipLists
use moyuan_kv.Prelude.{if◌then◌else◌, Bytes, beq, ℕ, ◌≡◌, Option, none, some, List}
use moyuan_kv.Lsm.Entries.{Entry, Sorted, lookup}

pub record MemTable : Type 1 where
  pub Table : Type 0
  pub new : Table
  pub get : Table → Bytes → Option Bytes
  pub put : ℕ → Bytes → Bytes → Table → Table
  pub binary_size : Table → ℕ
  -- From `begin()` to `end()`.
  pub entries : Table → List Entry
  pub IsValid : Table → Type 0
  pub new-IsValid : IsValid new
  pub put-IsValid : (h : ℕ) (k v : Bytes) (t : Table) → IsValid t → IsValid (put h k v t)
  pub get-new : (k : Bytes) → get new k ≡ none
  pub get-put :
      (h : ℕ) (k v : Bytes) (t : Table) (j : Bytes)
      → IsValid t
      → get (put h k v t) j ≡ (if beq k j then some v else get t j)
  pub entries-Sorted : (t : Table) → IsValid t → Sorted (entries t)
  pub lookup-entries : (t : Table) (k : Bytes) → IsValid t → lookup k (entries t) ≡ get t k
