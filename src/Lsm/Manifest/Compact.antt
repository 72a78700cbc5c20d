-- ===== src/Lsm/Manifest/Compact.antt =====
-- Compaction changes no answer and keeps the manifest valid.
use moyuan_kv.Prelude.{
  ltb, Bool-cases, length, set, get_or, length-set, Bytes, ℕ, zero, suc, ◌+◌, ◌<◌, ◌≡◌, refl, sym,
  ap, ap₂, ◌∙◌, subst, ◌≢◌, inl, inr, ◌&&◌, Option, none, some, List, [], arith,
}
use moyuan_kv.Lsm.Entries.{lookup, or_else, Sorted}
use moyuan_kv.Lsm.Sst.{Sst, TableParams}
use moyuan_kv.Lsm.Level
use moyuan_kv.Lsm.Level.{Level, sum_sizes}
use moyuan_kv.Lsm.Level.Search.{IsValidLevel, ranked, all_entries}
use moyuan_kv.Lsm.Manifest.Tables.{KeysNotEmpty}
use moyuan_kv.Lsm.Manifest.Merged.{
  merged_tables-Sorted, lookup-merged_tables, merged_tables-ValidSsts, merged_tables-KeysNotEmpty,
}
use moyuan_kv.Lsm.Manifest.Reading.{manifest_get-search, search_levels, IsValid}
use moyuan_kv.Lsm.Manifest.Positions.{
  ValidLevels, All-get_or, All-set, Numbered-get_or, Numbered-set, search-set,
  with_next-ValidLevels, search-with_next, length-with_next, get_or-with_next, lookup-ranked_newest,
  lookup-ranked_nil, ranked_deeper, newest-NotEmpty,
}
use moyuan_kv.Lsm.Manifest.{
  Manifest, no_level, merged_tables, with_next, merge_level, is_in_use, compact_level, compact_from,
  size_tiered_compaction, level_max_binary_size, max_level_size, get,
}

module _ (p : TableParams) (i id : ℕ) (vs : List Level) (valid : ValidLevels vs)
    (next : suc i < length vs) where
  abbrev up : Level
  up = get_or vs i no_level

  abbrev down : Level
  down = get_or vs (suc i) no_level

  abbrev tables : List Sst
  tables = merged_tables p id up.ssts down.ssts

  abbrev cleared : Level
  cleared = record up { ssts = [] }

  abbrev grown : Level
  grown = record down { ssts = tables }

  up-Valid : IsValidLevel up
  up-Valid = All-get_or IsValidLevel vs i valid.levels (omega arith)

  down-Valid : IsValidLevel down
  down-Valid = All-get_or IsValidLevel vs (suc i) valid.levels next

  up-filled : KeysNotEmpty up.ssts
  up-filled = All-get_or (λ v. KeysNotEmpty v.ssts) vs i valid.filled (omega arith)

  down-filled : KeysNotEmpty down.ssts
  down-filled = All-get_or (λ v. KeysNotEmpty v.ssts) vs (suc i) valid.filled next

  down-level : down.level ≡ suc i
  down-level = omega (arith, Numbered-get_or 0 vs (suc i) valid.numbered next)

  down-Sorted : Sorted (all_entries down.ssts)
  down-Sorted = down-Valid.disjoint (λ e. omega (arith, down-level))

  same_answers :
      (k : Bytes)
      → or_else (lookup k (ranked cleared)) (lookup k (ranked grown))
        ≡ or_else (lookup k (ranked up)) (lookup k (ranked down))
  same_answers k =
      ap (λ o. or_else o (lookup k (ranked grown))) (lookup-ranked_nil k up)
      ∙ ap (lookup k) (ranked_deeper grown i down-level)
      ∙ lookup-merged_tables p id up.ssts down.ssts up-Valid.valid up-filled down-Valid.valid
          down-Sorted k
      ∙ ap₂ or_else (sym (lookup-ranked_newest k up up-Valid))
          (ap (lookup k) (sym (ranked_deeper down i down-level)))

  pub search-compacted :
      (k : Bytes) → search_levels k (set (set vs i cleared) (suc i) grown) ≡ search_levels k vs
  search-compacted k = search-set k vs i cleared grown next (same_answers k)

  pub compacted-ValidLevels : up.ssts ≢ [] → ValidLevels (set (set vs i cleared) (suc i) grown)
  compacted-ValidLevels n = record {
    numbered =
        Numbered-set 0 (set vs i cleared) (suc i) grown
          (Numbered-set 0 vs i cleared valid.numbered
            (Numbered-get_or 0 vs i valid.numbered (omega arith)))
          (Numbered-get_or 0 vs (suc i) valid.numbered next);
    levels =
        All-set IsValidLevel (set vs i cleared) (suc i) grown
          (All-set IsValidLevel vs i cleared valid.levels
            (record { valid = tt; disjoint = λ e. tt }))
          (record {
            valid =
                merged_tables-ValidSsts p id up.ssts down.ssts up-Valid.valid up-filled
                  down-Valid.valid down-Sorted (newest-NotEmpty up.ssts up-Valid.valid n);
            disjoint = λ e.
                merged_tables-Sorted p id up.ssts down.ssts up-Valid.valid up-filled
                  down-Valid.valid down-Sorted;
          });
    filled = All-set _ (set vs i cleared) (suc i) grown (All-set _ vs i cleared valid.filled tt) (
        merged_tables-KeysNotEmpty p id up.ssts down.ssts up-Valid.valid up-filled down-Valid.valid
          down-Sorted down-filled);
  }

pub length-set-set :
    (vs : List Level) (i j : ℕ) (u v : Level) → length (set (set vs i u) j v) ≡ length vs
length-set-set vs i j u v = length-set (set vs i u) j v ∙ length-set vs i u

levels_of : (m : Manifest) → IsValid m → ValidLevels m.levels_
levels_of m v = record { numbered = v.numbered; levels = v.levels; filled = v.filled }

merge_level-IsValid :
    (p : TableParams) (i id : ℕ) (m : Manifest)
    → IsValid m
    → i < length m.levels_
    → (get_or m.levels_ i no_level).ssts ≢ []
    → IsValid (merge_level p i id m)
unfolding merge_level
merge_level-IsValid p i id m v h n =
    let vs = with_next i m.levels_ in
    let longer = length-with_next i m.levels_ h in
    let done =
      compacted-ValidLevels p i id vs (with_next-ValidLevels i m.levels_ (levels_of m v)) longer
        (λ e. n (sym (ap (λ (w : Level). w.ssts) (get_or-with_next i m.levels_ h)) ∙ e)) in
    record {
      numbered = done.numbered;
      levels = done.levels;
      filled = done.filled;
      not_empty = omega (arith, length-set-set vs i (suc i) _ _);
    }

search-merge_level :
    (p : TableParams) (i id : ℕ) (m : Manifest) (k : Bytes)
    → IsValid m
    → i < length m.levels_
    → search_levels k (merge_level p i id m).levels_ ≡ search_levels k m.levels_
unfolding merge_level
search-merge_level p i id m k v h =
    let vs = with_next i m.levels_ in
    search-compacted p i id vs (with_next-ValidLevels i m.levels_ (levels_of m v))
      (length-with_next i m.levels_ h) k
    ∙ search-with_next k i m.levels_

sizes_of_none : (v : Level) → v.ssts ≡ [] → Level.binary_size v ≡ 0
unfolding Level.binary_size sum_sizes
sizes_of_none v e = ap sum_sizes e

-- What a step of compaction promises: a valid manifest with the answers of the old one.
record Preserves (m n : Manifest) : Type 0 where
  valid : IsValid n
  same : (k : Bytes) → search_levels k n.levels_ ≡ search_levels k m.levels_

Preserves-trans : (m n o : Manifest) → Preserves m n → Preserves n o → Preserves m o
Preserves-trans m n o a b = record { valid = b.valid; same = λ k. b.same k ∙ a.same k }

-- What a compaction may come to: a result, and what it promises of it.
abbrev Ends : Manifest → Option Manifest → Type 0
Ends m none = Unit
Ends m (some n) = Preserves m n

Ends-trans : (m n : Manifest) (r : Option Manifest) → Preserves m n → Ends n r → Ends m r
Ends-trans m n none a b = tt
Ends-trans m n (some o) a b = Preserves-trans m n o a b

compact_from-Preserves :
    (p : TableParams) (rounds i id : ℕ) (m : Manifest)
    → IsValid m
    → Ends m (compact_from p rounds i id m)
unfolding compact_from compact_level
compact_from-Preserves p zero i id m v = record { valid = v; same = λ k. refl }
compact_from-Preserves p (suc r) i id m v =
    elim (Bool-cases (
      ltb i (length m.levels_)
      && ltb (level_max_binary_size i) (Level.binary_size (get_or m.levels_ i no_level)))) [
        | inr e ↦ rw e (record { valid = v; same = λ k. refl })
        | inl e ↦ elim (Bool-cases (is_in_use id m.levels_)) [
          | inl u ↦ rw (e, u) tt
          | inr u ↦
              let inside : i < length m.levels_ = ground (arith, e) in
              let filled : (get_or m.levels_ i no_level).ssts ≢ [] =
                λ z. ground (arith, e, sizes_of_none (get_or m.levels_ i no_level) z) in
              let next = merge_level p i id m in
              rw (e, u)
                (Ends-trans m next (compact_from p r (i + 1) id next)
                  (record {
                    valid = merge_level-IsValid p i id m v inside filled;
                    same = λ k. search-merge_level p i id m k v inside;
                  })
                  (compact_from-Preserves p r (i + 1) id next
                    (merge_level-IsValid p i id m v inside filled)))
        ]
      ]

-- A compaction with a result `n`, which is one that overwrites no file in use, leaves a valid manifest
-- valid and answers every key as before.
pub size_tiered_compaction-Preserves :
    (p : TableParams) (id : ℕ) (m n : Manifest)
    → IsValid m
    → size_tiered_compaction p id m ≡ some n
    → IsValid n × ((k : Bytes) → get n k ≡ get m k)
unfolding size_tiered_compaction
size_tiered_compaction-Preserves p id m n v e =
    let done : Preserves m n =
      subst (Ends m) e (compact_from-Preserves p max_level_size 0 id m v) in
    (
      done.valid,
      λ k. manifest_get-search n k done.valid ∙ done.same k ∙ sym (manifest_get-search m k v),
    )
