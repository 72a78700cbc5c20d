-- ===== src/Lsm/Manifest/File.antt =====
-- The manifest file (mokv/lsm/manifest.hpp): `Save`, and the constructor where the file exists.
use moyuan_kv.Prelude.{
  ltb, ◌==◌, if◌then◌else◌, length, drop, All, length-append, Bytes, ℕ, zero, suc, ◌+◌, ◌*◌, ◌%◌,
  ◌<◌, ◌≡◌, refl, sym, false, Option, none, some, List, [], ◌∷◌, ◌++◌, append_assoc, arith,
}
use moyuan_kv.Lsm.Sst.{Sst}
use moyuan_kv.Lsm.Level.{Level}
use moyuan_kv.Lsm.Manifest.{Manifest}
use moyuan_kv.Lsm.Layout.{write_size, read_size, Compressor, load_table}
use moyuan_kv.Lsm.Layout.Words.{
  IsSize, read_size-write_size, drop-write_size, length-write_word, drop-two,
}

-- `static_cast<size_t>(-1)`.
abbrev level_end : ℕ
level_end = 18446744073709551615

-- `Level::Save`.
unfoldable pub save_level : List Sst → Bytes
save_level [] = write_size level_end
save_level (s ∷ ss) = write_size s.id ++ save_level ss

-- The loop of `Save` over the levels.
unfoldable pub save_levels : List Level → Bytes
save_levels [] = []
save_levels (v ∷ vs) = save_level v.ssts ++ save_levels vs

-- What `Save` writes.
unfoldable pub save : Manifest → Bytes
save m = write_size m.version_ ++ (write_size (length m.levels_) ++ save_levels m.levels_)

-- The loop of `binary_size`.
unfoldable pub levels_size : List Level → ℕ
levels_size [] = 0
levels_size (v ∷ vs) = (length v.ssts + 1) * 8 + levels_size vs

unfoldable pub binary_size : Manifest → ℕ
binary_size m = 2 * 8 + levels_size m.levels_

-- `if (sst_id > max_sst_id) max_sst_id = sst_id`.
abbrev pub raise : ℕ → ℕ → ℕ
raise max_sst_id sst_id = if ltb max_sst_id sst_id then sst_id else max_sst_id

-- `CompressionFactory::Create`, and the files of the directory by the ids of their tables.
module _ (create : ℕ → Option Compressor) (files : ℕ → Option Bytes) where
  -- A table with `SetId` and `Load`; the result of `Load` is ignored.
  unfoldable pub open_sst : ℕ → Sst
  open_sst sst_id = elim (files sst_id) [
    | none ↦ record { id = sst_id; blocks = []; file_size = 0 }
    | some table ↦ record {
      id = sst_id;
      blocks = load_table create table;
      file_size = length table;
    }
  ]

  -- `Level::Load`: the tables, the largest id, and what follows the level. Each round reads eight
  -- bytes, so there are no more rounds than bytes.
  unfoldable pub load_level : ℕ → Bytes → ℕ → List Sst × ℕ × Bytes
  load_level zero s max_sst_id = ([], max_sst_id, s)
  load_level (suc n) s max_sst_id =
      let sst_id = read_size s in
      let rest = load_level n (drop 8 s) (raise max_sst_id sst_id) in
      if sst_id == level_end
      then ([], max_sst_id, drop 8 s)
      else (open_sst (sst_id % 4294967296) ∷ rest.0, rest.1, rest.2)

  -- The loop of the constructor over the levels, from number `i` on.
  unfoldable pub load_levels : ℕ → ℕ → Bytes → ℕ → List Level × ℕ
  load_levels zero i s max_sst_id = ([], max_sst_id)
  load_levels (suc n) i s max_sst_id =
      let loaded = load_level (length s) s max_sst_id in
      let rest = load_levels n (i + 1) loaded.2 loaded.1 in
      (record { level = i; ssts = loaded.0 } ∷ rest.0, rest.1)

  -- The constructor where the manifest file exists.
  unfoldable pub load : Bytes → Manifest
  load file =
      let loaded = load_levels (read_size (drop 8 file)) 0 (drop 16 file) 0 in
      record { version_ = read_size file; levels_ = loaded.0; max_sst_id_ = loaded.1 }

  -- The largest of the ids, and of the number given.
  unfoldable pub largest : ℕ → List Sst → ℕ
  largest n [] = n
  largest n (s ∷ ss) = largest (raise n s.id) ss

  unfoldable pub largest_of : ℕ → List Level → ℕ
  largest_of n [] = n
  largest_of n (v ∷ vs) = largest_of (largest n v.ssts) vs

  -- The id is an `int32_t` and the file of the id holds the table.
  pub record IsStored (s : Sst) : Type 0 where
    pub bound : s.id < 2147483648
    pub stored : open_sst s.id ≡ s

  -- The levels have their numbers, from `i` on, and their tables are stored.
  abbrev pub AreStored : ℕ → List Level → Type 0
  AreStored i [] = Unit
  AreStored i (v ∷ vs) = (v.level ≡ i) × All IsStored v.ssts × AreStored (i + 1) vs

  load_level-save_level :
      (ss : List Sst) (s : Bytes) (n m : ℕ)
      → All IsStored ss
      → length ss < n
      → load_level n (save_level ss ++ s) m ≡ (ss, largest m ss, s)
  unfolding load_level save_level largest
  load_level-save_level [] s zero m w h = absurd (omega (arith, h))
  load_level-save_level (t ∷ ss) s zero m w h = absurd (omega (arith, h))
  load_level-save_level [] s (suc n) m w h =
      rw (read_size-write_size level_end s (omega arith), drop-write_size level_end s) refl
  load_level-save_level (t ∷ ss) s (suc n) m w h =
      let t_id = w.0.bound in
      let not_end : (t.id == level_end) ≡ false = ground (arith, t_id) in
      let same : t.id % 4294967296 ≡ t.id = omega (arith, t_id) in
      rw
        (
          append_assoc (write_size t.id) (save_level ss) s,
          read_size-write_size t.id (save_level ss ++ s) (omega (arith, t_id)),
          drop-write_size t.id (save_level ss ++ s),
          not_end,
          same,
          w.0.stored,
          load_level-save_level ss s n (raise m t.id) w.1 (omega (arith, h)),
        )
        refl

  length-save_level : (ss : List Sst) → length (save_level ss) ≡ 8 * (length ss + 1)
  unfolding save_level
  length-save_level [] = length-write_word 8 level_end
  length-save_level (t ∷ ss) = omega (
    arith,
    length-append (write_size t.id) (save_level ss),
    length-write_word 8 t.id,
    length-save_level ss,
  )

  load_levels-save_levels :
      (vs : List Level) (i m : ℕ)
      → AreStored i vs
      → load_levels (length vs) i (save_levels vs) m ≡ (vs, largest_of m vs)
  unfolding load_levels save_levels largest_of
  load_levels-save_levels [] i m w = refl
  load_levels-save_levels (v ∷ vs) i m w =
      let s = save_level v.ssts ++ save_levels vs in
      let rounds : length v.ssts < length s =
        omega
          (arith, length-append (save_level v.ssts) (save_levels vs), length-save_level v.ssts) in
      rw
        (
          load_level-save_level v.ssts (save_levels vs) (length s) m w.1 rounds,
          load_levels-save_levels vs (i + 1) (largest m v.ssts) w.2,
          sym w.0,
        )
        refl

  -- A manifest that is saved and loaded has its version and its levels again, with the largest id of
  -- a table as its `max_sst_id_`, where its levels are numbered from 0, the id of each table fits an
  -- `int32_t` and the file of that id holds the table, and the version and the number of levels fit 64 bits.
  pub load-save :
      (m : Manifest)
      → IsSize m.version_
      → IsSize (length m.levels_)
      → AreStored 0 m.levels_
      → load (save m) ≡ record m { max_sst_id_ = largest_of 0 m.levels_ }
  unfolding load save
  load-save m v n w =
      let levels = save_levels m.levels_ in
      rw
        (
          read_size-write_size m.version_ (write_size (length m.levels_) ++ levels) v,
          drop-write_size m.version_ (write_size (length m.levels_) ++ levels),
          read_size-write_size (length m.levels_) levels n,
          drop-two m.version_ (length m.levels_) levels,
          load_levels-save_levels m.levels_ 0 0 w,
        )
        refl

  length-save_levels : (vs : List Level) → length (save_levels vs) ≡ levels_size vs
  unfolding save_levels levels_size
  length-save_levels [] = refl
  length-save_levels (v ∷ vs) = omega (
    arith,
    length-append (save_level v.ssts) (save_levels vs),
    length-save_level v.ssts,
    length-save_levels vs,
  )

  -- `Save` writes as many bytes as `binary_size` has given the file.
  pub length-save : (m : Manifest) → length (save m) ≡ binary_size m
  unfolding save binary_size
  length-save m = omega (
    arith,
    length-append (write_size m.version_) (write_size (length m.levels_) ++ save_levels m.levels_),
    length-append (write_size (length m.levels_)) (save_levels m.levels_),
    length-write_word 8 m.version_,
    length-write_word 8 (length m.levels_),
    length-save_levels m.levels_,
  )
