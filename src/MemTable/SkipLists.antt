-- ===== src/MemTable/SkipLists.antt =====
-- mokv/lsm/memtable.hpp over mokv/lsm/skiplist.hpp: every call is passed on to the skip list.
use moyuan_kv.Prelude.{
  if◌then◌else◌, Bytes, beq, ℕ, ◌≤◌, ◌≡◌, refl, sym, ap, ◌∙◌, Option, none, some,
}
use mathlib.Core.Option
use moyuan_kv.Lsm.Entries.{lookup}
use moyuan_kv.Lsm.Insertion.{lookup-insert, lookup-erase}
use moyuan_kv.Lsm.SkipList.{
  SkipList, new, get, put, delete, entries, new_node, descend, walk, smaller, matching,
}
use moyuan_kv.Lsm.SkipList.Contents.{IsValid, new-IsValid, get-entries, entries-Sorted}
use moyuan_kv.Lsm.SkipList.Puts.{put-Written}
use moyuan_kv.Lsm.SkipList.Deletes.{delete-Erased}
use moyuan_kv.MemTable.{MemTable}

-- A read of a valid skip list after a write, for any level that is drawn: the new value under its key,
-- and what was read before under any other.
pub get-put :
    (draws : ℕ) (k v : Bytes) (t : SkipList) (j : Bytes)
    → IsValid t
    → get (put draws k v t) j ≡ (if beq k j then some v else get t j)
get-put draws k v t j w =
    let written = put-Written draws k v t w in
    get-entries (put draws k v t) j written.0
    ∙ ap (lookup j) written.1
    ∙ lookup-insert k v (entries t) j
    ∙ ap (λ (o : Option Bytes). if beq k j then some v else o) (sym (get-entries t j w))

-- A read of a valid skip list after a deletion, for a head of at most 32 levels: nothing under the key,
-- and what was read before under any other.
pub get-delete :
    (k : Bytes) (t : SkipList) (j : Bytes)
    → IsValid t
    → (t.cells 0).height ≤ 32
    → Option.map (λ u. get u j) (delete k t) ≡ some (if beq k j then none else get t j)
get-delete k t j w h =
    let erased = delete-Erased k t w h in
    ap (Option.map (λ u. get u j)) erased.1
    ∙ ap some (
        get-entries erased.0 j erased.2
        ∙ ap (lookup j) erased.3
        ∙ lookup-erase k (entries t) j (entries-Sorted t w)
        ∙ ap (λ (o : Option Bytes). if beq k j then none else o) (sym (get-entries t j w)))

pub get-new : (k : Bytes) → get new k ≡ none
unfolding get new new_node descend walk smaller matching
get-new k = refl

abbrev pub skip_list_table : MemTable
skip_list_table = record {
  Table = SkipList;
  new = new;
  get = get;
  put = put;
  binary_size = λ t. t.binary_size;
  entries = entries;
  IsValid = IsValid;
  new-IsValid = new-IsValid;
  put-IsValid = λ h k v t w. (put-Written h k v t w).0;
  get-new = get-new;
  get-put = get-put;
  entries-Sorted = entries-Sorted;
  lookup-entries = λ t k w. sym (get-entries t k w);
}
