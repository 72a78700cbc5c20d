-- ===== src/Lsm/Merge.antt =====
-- The k-way merge of `Manifest::SizeTieredCompaction` (mokv/lsm/manifest.hpp). `std::priority_queue` is
-- a list from which the greatest element by `operator<` is taken out.
pub mod Sources
pub mod Output
use moyuan_kv.Prelude.{
  ltb, if◌then◌else◌, length, Bytes, beq, blt, ℕ, zero, suc, ◌+◌, Bool, false, Option, none, some,
  List, [], ◌∷◌,
}
use moyuan_kv.Lsm.Entries.{Entry}

-- `SizeTieredCompactionStruct`: an iterator that is not at its end, and the rank of its table.
pub record Cursor : Type 0 where
  pub current : Entry
  pub rest : List Entry
  pub second_value : ℕ

-- `operator<`: the smaller key, and among equal keys the smaller rank, has the higher priority.
unfoldable pub less : Cursor → Cursor → Bool
less a b =
    if beq a.current.key b.current.key
    then ltb b.second_value a.second_value
    else blt b.current.key a.current.key

-- `top` and `pop` of a queue that is not empty.
unfoldable pub pop_top : Cursor → List Cursor → Cursor × List Cursor
pop_top c [] = (c, [])
pop_top c (d ∷ ds) =
    let (t, rest) = pop_top d ds in if less c t then (t, c ∷ rest) else (c, t ∷ rest)

-- `queue.emplace(table, value)`. A table without entries, whose iterator must not be read, adds
-- nothing.
unfoldable pub emplace : List Cursor → List Entry → ℕ → List Cursor
emplace queue [] value = queue
emplace queue (e ∷ es) value = record { current = e; rest = es; second_value = value } ∷ queue

-- `++data.it; if (data.it) queue.push(data);`
unfoldable pub advance : Cursor → List Cursor → List Cursor
advance c queue = emplace queue c.rest c.second_value

-- `entries.empty() || entries.back().key != key`, where `last` is the key of `entries.back()`.
unfoldable pub is_last : Option Bytes → Bytes → Bool
is_last none key = false
is_last (some last) key = beq last key

-- What the loop still appends to `entries`. Each round consumes one entry of the queue.
unfoldable pub merge_loop : ℕ → Option Bytes → List Cursor → List Entry
merge_loop zero last queue = []
merge_loop (suc fuel) last [] = []
merge_loop (suc fuel) last (c ∷ cs) =
    let (data', queue) = pop_top c cs in
    let out = merge_loop fuel (some data'.current.key) (advance data' queue) in
    if is_last last data'.current.key then out else data'.current ∷ out

abbrev pub cursor_entries : Cursor → List Entry
cursor_entries c = c.current ∷ c.rest

abbrev pub pending : List Cursor → ℕ
pending [] = 0
pending (c ∷ cs) = length (cursor_entries c) + pending cs

unfoldable pub merge : List Cursor → List Entry
merge queue = merge_loop (pending queue) none queue
