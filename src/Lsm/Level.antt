-- ===== src/Lsm/Level.antt =====
-- `Manifest::Level` of mokv/lsm/manifest.hpp.
pub mod Search
use moyuan_kv.Prelude.{
  ◌==◌, if◌then◌else◌, length, get_or, Bytes, blt, ℕ, zero, suc, ◌+◌, Bool, not, Option, none, some,
  List, [], ◌∷◌, ◌++◌, reverse,
}
use moyuan_kv.Lsm.Bisect.{bisect}
use moyuan_kv.Lsm.Sst
use moyuan_kv.Lsm.Sst.{Sst, first_key}

pub record Level : Type 0 where
  pub level : ℕ
  pub ssts : List Sst

-- The loop of level 0, over the tables from the newest to the oldest.
unfoldable pub read_each : List Sst → Bytes → Option Bytes
read_each [] key = none
read_each (s ∷ ss) key = elim (Sst.get s key) [ none ↦ read_each ss key | some value ↦ some value ]

abbrev pub no_sst : Sst
no_sst = record { id = 0; blocks = []; file_size = 0 }

-- `!(ssts_[mid]->key() > key)`.
abbrev pub sst_starts_by : List Sst → Bytes → ℕ → Bool
sst_starts_by ss key mid = not (blt key (first_key (get_or ss mid no_sst)))

-- The branch of the other levels behind their search, `l > 0`.
unfoldable pub read_found : List Sst → Bytes → ℕ → Option Bytes
read_found ss key zero = none
read_found ss key (suc l) = Sst.get (get_or ss l no_sst) key

unfoldable pub get : Level → Bytes → Option Bytes
get v key =
    if v.level == 0
    then read_each (reverse v.ssts) key
    else read_found v.ssts key
        (bisect (suc (length v.ssts)) (sst_starts_by v.ssts key) 0 (length v.ssts))

-- `Insert`: a new table is the newest of its level.
unfoldable pub insert : Level → Sst → Level
insert v s = record v { ssts = v.ssts ++ s ∷ [] }

unfoldable pub sum_sizes : List Sst → ℕ
sum_sizes [] = 0
sum_sizes (s ∷ ss) = s.file_size + sum_sizes ss

unfoldable pub binary_size : Level → ℕ
binary_size v = sum_sizes v.ssts
