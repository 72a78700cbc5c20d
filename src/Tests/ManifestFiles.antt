-- ===== src/Tests/ManifestFiles.antt =====
-- A manifest of two levels and the files of its tables.
use moyuan_kv.Prelude.{
  ltb, if◌then◌else◌, Bytes, ℕ, ◌≡◌, refl, Option, none, some, List, [], ◌∷◌, arith,
}
use moyuan_kv.Lsm.Level.{Level}
use moyuan_kv.Lsm.Manifest.{Manifest}
use moyuan_kv.Lsm.Manifest.File
use moyuan_kv.Lsm.Manifest.File.{open_sst, AreStored, largest_of, largest, save, load-save}
use moyuan_kv.Lsm.Layout.{write_table, Compressor}
use moyuan_kv.Tests.Layouts.{small_params, two, stale}

abbrev create : ℕ → Option Compressor
create n = none

-- The table 9 is missing.
abbrev files : ℕ → Option Bytes
files n = if ltb n 9 then some (write_table stale small_params two) else none

abbrev levels : List Level
levels =
    record { level = 0; ssts = open_sst create files 4 ∷ open_sst create files 7 ∷ [] }
    ∷ record { level = 1; ssts = open_sst create files 9 ∷ [] }
    ∷ record { level = 2; ssts = [] }
    ∷ []

abbrev manifest : Manifest
manifest = record { version_ = 12; levels_ = levels; max_sst_id_ = 11 }

levels-AreStored : AreStored create files 0 levels
unfolding open_sst
levels-AreStored = (
  refl,
  (
    record { bound = omega arith; stored = refl },
    (record { bound = omega arith; stored = refl }, tt),
  ),
  (refl, (record { bound = omega arith; stored = refl }, tt), (refl, tt, tt)),
)

load-save_example :
    File.load create files (save manifest)
    ≡ record manifest { max_sst_id_ = largest_of create files 0 levels }
load-save_example = load-save create files manifest (omega arith) (omega arith) levels-AreStored

largest-levels : largest_of create files 0 levels ≡ 9
unfolding largest_of largest open_sst
largest-levels = refl
