-- ===== src/Tests/SkipLists.antt =====
-- A skip list of three keys, with nodes of one, two and three levels.
use moyuan_kv.Prelude.{if◌then◌else◌, Bytes, beq, blt, ◌≡◌, refl, none, some, [], ◌∷◌, arith}
use moyuan_kv.Lsm.Entries.{lookup}
use moyuan_kv.Lsm.SkipList.{
  detach, unlink, trim, shrink, remove_node, delete, SkipList, new, new_node, walk, smaller,
  matching, locate, collect, write, set_next, link, grow, rand_level, update, insert_node, put, get,
  entries,
}
use moyuan_kv.Lsm.SkipList.Contents.{IsValid, new-IsValid, prevs, get-entries}
use mathlib.Core.Option
use moyuan_kv.Lsm.SkipList.Deletes.{Erased, delete-Erased}
use moyuan_kv.Lsm.SkipList.Puts.{Written, put-Written}
use moyuan_kv.Lsm.SkipList.Sizes.{total, loop_ends, binary_size-put}
use moyuan_kv.MemTable.SkipLists.{get-put}

abbrev apple : Bytes
apple = b'a' ∷ b'p' ∷ []

abbrev berry : Bytes
berry = b'b' ∷ []

abbrev cherry : Bytes
cherry = b'c' ∷ []

abbrev red : Bytes
red = b'r' ∷ b'e' ∷ b'd' ∷ []

abbrev first : SkipList
first = put 2 berry red new

abbrev second : SkipList
second = put 0 apple berry first

abbrev three : SkipList
three = put 1 cherry apple second

three-IsValid : IsValid three
three-IsValid =
    (put-Written 1 cherry apple second
      (put-Written 0 apple berry first (put-Written 2 berry red new new-IsValid).0).0).0

-- An overwrite by a shorter value, and the entries in the order of their keys.
entries_three :
    entries (put 5 berry cherry three)
    ≡ record { key = apple; value = berry }
      ∷ record { key = berry; value = cherry }
      ∷ record { key = cherry; value = apple }
      ∷ []
unfolding blt beq new new_node walk smaller matching locate collect write set_next link grow
    rand_level update insert_node put entries
entries_three = refl

size_three : (three.size ≡ 3) × (three.binary_size ≡ 10) × ((three.cells 0).height ≡ 3)
unfolding blt beq new new_node walk smaller matching locate write set_next link grow rand_level
    update insert_node put
size_three = (refl, refl, refl)

total-three : total (entries three) ≡ 10
unfolding blt beq new new_node walk smaller matching locate collect write set_next link grow
    rand_level update insert_node put entries total
total-three = refl

total_overwritten : total (entries (put 5 berry cherry three)) ≡ 8
unfolding blt beq new new_node walk smaller matching locate collect write set_next link grow
    rand_level update insert_node put entries total
total_overwritten = refl

get-put_example :
    get (put 5 berry cherry three) berry
    ≡ (if beq berry berry then some cherry else get three berry)
get-put_example = get-put 5 berry cherry three berry three-IsValid

put-Written_example : Written berry cherry three (put 5 berry cherry three)
put-Written_example = put-Written 5 berry cherry three three-IsValid

get-entries_example : get three berry ≡ lookup berry (entries three)
get-entries_example = get-entries three berry three-IsValid

loop_ends_example :
    smaller three.cells berry ((three.cells (prevs three three-IsValid berry 1)).nexts 1) ≡ none
loop_ends_example = loop_ends three three-IsValid berry 1 (omega (arith, size_three.2))

binary_size-put_example :
    (put 5 berry cherry three).binary_size ≡ total (entries (put 5 berry cherry three))
binary_size-put_example =
    binary_size-put 5 berry cherry three three-IsValid (omega (arith, size_three.1, total-three))
      (omega (arith, total-three)) (omega (arith, total_overwritten))

delete-Erased_example : Erased berry three (delete berry three)
delete-Erased_example = delete-Erased berry three three-IsValid (omega (arith, size_three.2))

-- The head gives up the level that only the deleted node had.
deleted_height : Option.map (λ u. (u.cells 0).height) (delete berry three) ≡ some 2
unfolding blt beq new new_node walk smaller matching locate collect write set_next link grow
    rand_level update insert_node put entries detach unlink trim shrink remove_node delete
deleted_height = refl
