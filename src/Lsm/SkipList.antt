-- ===== src/Lsm/SkipList.antt =====
-- mokv/lsm/skiplist.hpp: the skip list under the memtable, with its nodes in an explicit heap. A pointer
-- is an address, `nullptr` is `none`, and the head is at address 0. The spin lock makes each operation
-- one step. The loops along a level take `size` rounds at most, the number of nodes.

pub mod Chains
pub mod Walk
pub mod Contents
pub mod Links
pub mod Splice
pub mod Growth
pub mod Writes
pub mod Puts
pub mod Sizes
pub mod Unlinks
pub mod Shrinks
pub mod Deletes
use moyuan_kv.Prelude.{
  ltb, leb, ◌==◌, if◌then◌else◌, length, Bytes, beq, blt, ℕ, zero, suc, ◌+◌, ◌-◌, ◌%◌, Option, none,
  some, List, [], ◌∷◌, map,
}
use moyuan_kv.Lsm.Entries.{Entry}
use mathlib.Core.Option

-- `Node`: `height` is the size of the vector `nexts`, which is read at levels below it only.
pub record Node : Type 0 where
  pub key : Bytes
  pub value : Bytes
  pub height : ℕ
  pub nexts : ℕ → Option ℕ

unfoldable pub new_node : Bytes → Bytes → ℕ → Node
new_node k v height = record { key = k; value = v; height = height; nexts = λ _. none }

-- The sizes are of type `size_t`.
pub record SkipList : Type 0 where
  pub cells : ℕ → Node
  -- The next address that `new` gives.
  pub fresh : ℕ
  pub size : ℕ
  pub binary_size : ℕ

abbrev pub wrap : ℕ → ℕ
wrap n = n % 18446744073709551616

unfoldable pub new : SkipList
new = record { cells = λ _. new_node [] [] 1; fresh = 1; size = 0; binary_size = 0 }

module _ (cells : ℕ → Node) where
  -- `next && next->key < key`
  unfoldable pub smaller : Bytes → Option ℕ → Option ℕ
  smaller key none = none
  smaller key (some q) = if blt (cells q).key key then some q else none

  -- `next && next->key == key`
  unfoldable pub matching : Bytes → Option ℕ → Option ℕ
  matching key none = none
  matching key (some q) = if beq (cells q).key key then some q else none

  -- The inner loop of `Get` and `Put`: along one level while the next key is smaller.
  unfoldable pub walk : Bytes → ℕ → ℕ → ℕ → ℕ
  walk key level zero p = p
  walk key level (suc n) p = elim (smaller key ((cells p).nexts level)) [
    | none ↦ p
    | some q ↦ walk key level n q
  ]

  -- The outer loop of `Get`, over the levels below the given one.
  unfoldable pub descend : Bytes → ℕ → ℕ → ℕ → ℕ
  descend key n zero p = p
  descend key n (suc level) p = descend key n level (walk key level n p)

  -- The same loop in `Put`, which writes down where it left each level.
  unfoldable pub locate : Bytes → ℕ → ℕ → ℕ → (ℕ → ℕ) → ℕ → ℕ
  locate key n zero p prevs = prevs
  locate key n (suc level) p prevs =
      let q = walk key level n p in locate key n level q (λ l. if l == level then q else prevs l)

  -- From an iterator on: the entries of the lowest level.
  unfoldable pub collect : ℕ → Option ℕ → List ℕ
  collect zero o = []
  collect (suc n) none = []
  collect (suc n) (some q) = q ∷ collect n ((cells q).nexts 0)

unfoldable pub get : SkipList → Bytes → Option Bytes
get t key =
    let p = descend t.cells key t.size (t.cells 0).height 0 in
    Option.map (λ q. (t.cells q).value) (matching t.cells key ((t.cells p).nexts 0))

-- `cells[a] = n`
unfoldable pub write : (ℕ → Node) → ℕ → Node → ℕ → Node
write cells a n b = if b == a then n else cells b

-- `nexts[level] = o` in the node at `a`
unfoldable pub set_next : (ℕ → Node) → ℕ → ℕ → Option ℕ → ℕ → Node
set_next cells a level o =
    write cells a (record (cells a) { nexts = λ l. if l == level then o else (cells a).nexts l })

-- The loop that links a node at the levels below the given one.
unfoldable pub link : (ℕ → ℕ) → ℕ → ℕ → (ℕ → Node) → ℕ → Node
link prevs node zero cells = cells
link prevs node (suc level) cells =
    let below = link prevs node level cells in
    let linked = set_next below node level ((below (prevs level)).nexts level) in
    set_next linked (prevs level) level (some node)

-- `head_->nexts.resize(new_level, nullptr)` if the new node is higher than the head.
unfoldable pub grow : ℕ → (ℕ → Node) → ℕ → Node
grow new_level cells =
    let head = cells 0 in
    if ltb head.height new_level
    then write cells 0 (record head {
      height = new_level;
      nexts = λ l. if ltb l head.height then head.nexts l else none;
    })
    else cells

-- `RandLevel`, from the number of draws in a row that are multiples of four.
unfoldable pub rand_level : ℕ → ℕ
rand_level zero = 1
rand_level (suc draws) = suc (rand_level draws)

unfoldable pub update : ℕ → Bytes → SkipList → SkipList
update q v t = record t {
  cells = write t.cells q (record (t.cells q) { value = v });
  binary_size = wrap (t.binary_size + length v + (18446744073709551616 - length (t.cells q).value));
}

unfoldable pub insert_node : (ℕ → ℕ) → ℕ → Bytes → Bytes → SkipList → SkipList
insert_node prevs new_level k v t =
    let made = write (grow new_level t.cells) t.fresh (new_node k v new_level) in
    record {
      cells = link prevs t.fresh new_level made;
      fresh = suc t.fresh;
      size = suc t.size;
      binary_size = wrap (t.binary_size + (length k + length v));
    }

-- At the levels above the old head `prev_nodes` is the head.
unfoldable pub put : ℕ → Bytes → Bytes → SkipList → SkipList
put draws k v t =
    let prevs = locate t.cells k t.size (t.cells 0).height 0 (λ _. 0) in
    elim (matching t.cells k ((t.cells (prevs 0)).nexts 0)) [
      | some q ↦ update q v t
      | none ↦ insert_node prevs (rand_level draws) k v t
    ]

-- One round of the loop below: the pointer to the node is replaced by its own.
unfoldable pub detach : ℕ → ℕ → Option ℕ → (ℕ → Node) → ℕ → Node
detach prev level none cells = cells
detach prev level (some d) cells = set_next cells prev level ((cells d).nexts level)

-- The loop of `Delete` that takes a node out, from the highest level down; `targets` has the nodes that
-- were found.
unfoldable pub unlink : (ℕ → ℕ) → (ℕ → Option ℕ) → ℕ → (ℕ → Node) → ℕ → Node
unlink prevs targets zero cells = cells
unlink prevs targets (suc level) cells =
    unlink prevs targets level (detach (prevs level) level (targets level) cells)

-- The number of levels of a head without the empty ones at the top.
unfoldable pub trim : (ℕ → Option ℕ) → ℕ → ℕ
trim nexts zero = zero
trim nexts (suc zero) = 1
trim nexts (suc (suc n)) = elim (nexts (suc n)) [ none ↦ trim nexts (suc n) | some q ↦ suc (suc n) ]

unfoldable pub shrink : (ℕ → Node) → ℕ → Node
shrink cells = write cells 0 (record (cells 0) { height = trim (cells 0).nexts (cells 0).height })

unfoldable pub remove_node : (ℕ → Node) → ℕ → SkipList → SkipList
remove_node cells d t = record {
  cells = shrink cells;
  fresh = t.fresh;
  size = t.size - 1;
  binary_size = wrap (
      t.binary_size + (18446744073709551616 - (length (t.cells d).key + length (t.cells d).value)));
}

-- `Delete`, or nothing where the head has more levels than the arrays of 32 that it uses.
unfoldable pub delete : Bytes → SkipList → Option SkipList
delete k t =
    let prevs = locate t.cells k t.size (t.cells 0).height 0 (λ _. 0) in
    let targets = λ (l : ℕ). matching t.cells k ((t.cells (prevs l)).nexts l) in
    let unlinked = unlink prevs targets (t.cells 0).height t.cells in
    if leb (t.cells 0).height 32
    then some (elim (targets 0) [
      | none ↦ record t { cells = unlinked }
      | some d ↦ remove_node unlinked d t
    ])
    else none

abbrev pub entry : (ℕ → Node) → ℕ → Entry
entry cells a = record { key = (cells a).key; value = (cells a).value }

-- The entries from `begin()` to `end()`.
unfoldable pub entries : SkipList → List Entry
entries t = map (entry t.cells) (collect t.cells t.size ((t.cells 0).nexts 0))
