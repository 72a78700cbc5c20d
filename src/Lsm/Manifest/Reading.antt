-- ===== src/Lsm/Manifest/Reading.antt =====
-- What a manifest answers: the levels in their order, each read as one list of entries.
use moyuan_kv.Prelude.{
  length, All, Bytes, ℕ, suc, ◌<◌, ◌≡◌, refl, Option, none, List, [], ◌∷◌, arith,
}
use moyuan_kv.Lsm.Entries.{lookup, or_else}
use moyuan_kv.Lsm.Level.{Level}
use moyuan_kv.Lsm.Level.Search.{IsValidLevel, ranked, level_get-lookup}
use moyuan_kv.Lsm.Manifest.Tables.{KeysNotEmpty}
use moyuan_kv.Lsm.Manifest.{Manifest, read_levels, get}

-- The levels are numbered by their position.
abbrev pub Numbered : ℕ → List Level → Type 0
Numbered n [] = Unit
Numbered n (v ∷ vs) = (v.level ≡ n) × Numbered (suc n) vs

-- The first level that holds the key answers.
abbrev pub search_levels : Bytes → List Level → Option Bytes
search_levels k [] = none
search_levels k (v ∷ vs) = or_else (lookup k (ranked v)) (search_levels k vs)

-- The levels are valid and numbered, there is a level 0, and no key is empty.
pub record IsValid (m : Manifest) : Type 0 where
  pub numbered : Numbered 0 m.levels_
  pub levels : All IsValidLevel m.levels_
  pub filled : All (λ v. KeysNotEmpty v.ssts) m.levels_
  pub not_empty : 0 < length m.levels_

read_levels-search :
    (vs : List Level) (k : Bytes) → All IsValidLevel vs → read_levels vs k ≡ search_levels k vs
unfolding read_levels
read_levels-search [] k v = refl
read_levels-search (v ∷ vs) k h =
    ground (arith, level_get-lookup v k h.0, read_levels-search vs k h.1)

-- On a valid manifest `Get` answers from the first level that holds the key, and on level 0 from the
-- newest table that does.
pub manifest_get-search :
    (m : Manifest) (k : Bytes) → IsValid m → get m k ≡ search_levels k m.levels_
unfolding get
manifest_get-search m k v = read_levels-search m.levels_ k v.levels
