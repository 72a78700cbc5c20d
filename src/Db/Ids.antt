-- ===== src/Db/Ids.antt =====
-- The ids of table files: a flush has a result unless its compaction spills over.
use moyuan_kv.Prelude.{
  ltb, ◌==◌, if◌then◌else◌, Bool-cases, length, set, get_or, take, drop, All, All-append, All-map,
  ℕ, zero, suc, ◌+◌, ◌≤◌, ◌<◌, ◌≡◌, refl, ◌∙◌, inl, inr, Bool, true, false, Option, none, some,
  List, [], ◌∷◌, ◌++◌, arith,
}
use moyuan_kv.Lsm.Entries.{Entry}
use moyuan_kv.Lsm.Sst.{Sst, TableParams, build}
use moyuan_kv.Lsm.Level
use moyuan_kv.Lsm.Level.{Level}
use moyuan_kv.Lsm.Manifest.{
  Manifest, no_level, merged_tables, with_next, merge_level, has_id, is_in_use, can_do_compaction,
  insert_first, insert_and_update, size_tiered_compaction,
}
use moyuan_kv.Lsm.Manifest.Positions.{All-get_or, All-set, length-with_next}
use moyuan_kv.Lsm.Manifest.Spill.{is_over, compact_from_once}
use moyuan_kv.MemTable.{MemTable}
use moyuan_kv.Db.{Db, next_manifest, finish_flush}

abbrev pub IdsUpTo : ℕ → List Sst → Type 0
IdsUpTo n ss = All (λ s. s.id ≤ n) ss

-- The ids of all tables are at most `n`.
abbrev pub AreUpTo : ℕ → List Level → Type 0
AreUpTo n vs = All (λ v. IdsUpTo n v.ssts) vs

has_id-above : (n id : ℕ) (ss : List Sst) → IdsUpTo n ss → n < id → has_id id ss ≡ false
unfolding has_id
has_id-above n id [] w h = refl
has_id-above n id (s ∷ ss) w h =
    let here = w.0 in ground (arith, here, h, has_id-above n id ss w.1 h)

is_in_use-above : (n id : ℕ) (vs : List Level) → AreUpTo n vs → n < id → is_in_use id vs ≡ false
unfolding is_in_use
is_in_use-above n id [] w h = refl
is_in_use-above n id (v ∷ vs) w h =
    ground (arith, has_id-above n id v.ssts w.0 h, is_in_use-above n id vs w.1 h)

IdsUpTo-raise : (n m : ℕ) (ss : List Sst) → n ≤ m → IdsUpTo n ss → IdsUpTo m ss
IdsUpTo-raise n m ss h w = All-map ss (λ s u. omega (arith, h, u)) w

AreUpTo-raise : (n m : ℕ) (vs : List Level) → n ≤ m → AreUpTo n vs → AreUpTo m vs
AreUpTo-raise n m vs h w = All-map vs (λ v u. IdsUpTo-raise n m v.ssts h u) w

All-take {ℓ} : {A : Type ℓ} (P : A → Type 0) (n : ℕ) (xs : List A) → All P xs → All P (take n xs)
All-take P zero xs w = tt
All-take P (suc n) [] w = tt
All-take P (suc n) (x ∷ xs) w = (w.0, All-take P n xs w.1)

All-drop {ℓ} : {A : Type ℓ} (P : A → Type 0) (n : ℕ) (xs : List A) → All P xs → All P (drop n xs)
All-drop P zero xs w = w
All-drop P (suc n) [] w = tt
All-drop P (suc n) (x ∷ xs) w = All-drop P n xs w.1

spliced-UpTo :
    (p : TableParams) (n i j : ℕ) (es : List Entry) (ss : List Sst)
    → IdsUpTo n ss
    → IdsUpTo n (take i ss ++ build p es n ∷ drop j ss)
unfolding build
spliced-UpTo p n i j es ss w =
    All-append (λ (s : Sst). s.id ≤ n) (take i ss) (build p es n ∷ drop j ss)
      (All-take (λ (s : Sst). s.id ≤ n) i ss w)
      (omega arith, All-drop (λ (s : Sst). s.id ≤ n) j ss w)

merged_tables-UpTo :
    (p : TableParams) (n : ℕ) (ups downs : List Sst)
    → IdsUpTo n downs
    → IdsUpTo n (merged_tables p n ups downs)
unfolding merged_tables
merged_tables-UpTo p n ups downs w = spliced-UpTo p n _ _ _ downs w

with_next-UpTo : (n i : ℕ) (vs : List Level) → AreUpTo n vs → AreUpTo n (with_next i vs)
unfolding with_next
with_next-UpTo n i vs w = elim (Bool-cases (i + 1 == length vs)) [
  | inl e ↦ rw e (All-append _ vs _ w (tt, tt))
  | inr e ↦ rw e w
]

merge_level-UpTo :
    (p : TableParams) (n : ℕ) (m : Manifest)
    → 0 < length m.levels_
    → AreUpTo n m.levels_
    → AreUpTo n (merge_level p 0 n m).levels_
unfolding merge_level
merge_level-UpTo p n m h w =
    let vs = with_next 0 m.levels_ in
    let all = with_next-UpTo n 0 m.levels_ w in
    let down = All-get_or (λ v. IdsUpTo n v.ssts) vs 1 all (length-with_next 0 m.levels_ h) in
    All-set _ (set vs 0 _) 1 _ (All-set _ vs 0 _ all tt)
      (merged_tables-UpTo p n (get_or vs 0 no_level).ssts (get_or vs 1 no_level).ssts down)

inserted-UpTo :
    (n : ℕ) (m : Manifest) (s : Sst)
    → s.id ≤ n
    → AreUpTo n m.levels_
    → AreUpTo n (insert_and_update m s).levels_
unfolding insert_and_update insert_first Level.insert
inserted-UpTo n m s h w = go m.levels_ w
  where
    go : (vs : List Level) → AreUpTo n vs → AreUpTo n (insert_first vs s)
    go [] u = tt
    go (v ∷ vs) u = (All-append _ v.ssts _ u.0 (h, tt), u.1)

module _ (mt : MemTable) (p : TableParams) where
  open mt use {Table}

  -- The manifest with the table of a flush.
  abbrev pub flushed : Db mt → Table → Manifest
  flushed db t = insert_and_update db.manifest (build p (mt.entries t) (db.sst_id + 1))

  -- The end of a round: there is one, and the ids are bounded again.
  abbrev pub EndsRound : Option (Db mt) → Type 0
  EndsRound r = (next : Db mt) × ((r ≡ some next) × AreUpTo next.sst_id next.manifest.levels_)

  compacted-ends :
      (db : Db mt) (m : Manifest) (c : Bool)
      → can_do_compaction m ≡ c
      → 0 < length m.levels_
      → AreUpTo (db.sst_id + 1) m.levels_
      → is_over (merge_level p 0 (db.sst_id + 1 + 1) m) ≡ false
      → (n : Manifest) × (((if can_do_compaction m
              then size_tiered_compaction p (db.sst_id + 1 + 1) m
              else some m)
            ≡ some n)
          × AreUpTo (if can_do_compaction m then db.sst_id + 1 + 1 else db.sst_id + 1) n.levels_)
  compacted-ends db m false c l w o = (m, (rw c refl, rw c w))
  compacted-ends db m true c l w o =
      let id = db.sst_id + 1 + 1 in
      let free = is_in_use-above (db.sst_id + 1) id m.levels_ w (omega arith) in
      let filled : ltb 0 (length m.levels_) ≡ true = ground (arith, l) in
      let once : size_tiered_compaction p id m ≡ some (merge_level p 0 id m) =
        compact_from_once p id m free o ∙ rw (c, filled) refl in
      (
        merge_level p 0 id m,
        (
          rw c once,
          rw c (
              merge_level-UpTo p id m l
                (AreUpTo-raise (db.sst_id + 1) id m.levels_ (omega arith) w)),
        ),
      )

  length-insert_first : (vs : List Level) (s : Sst) → length (insert_first vs s) ≡ length vs
  unfolding insert_first
  length-insert_first [] s = refl
  length-insert_first (v ∷ vs) s = refl

  finish_flush-some :
      (db : Db mt) (t : Table) (n : Manifest)
      → db.in_flight ≡ some t
      → next_manifest mt p (db.sst_id + 1) t db.manifest ≡ some n
      → finish_flush mt p db
        ≡ some (record db {
          in_flight = none;
          manifest = n;
          sst_id = if can_do_compaction (flushed db t) then db.sst_id + 1 + 1 else db.sst_id + 1;
        })
  unfolding finish_flush
  finish_flush-some db t n f e = rw (finish_flush, f, e) refl

  -- If the ids of all tables are at most `sst_id_`, and the merge of level 0, with the table of the
  -- flush in it, leaves level 1 within its limit, then the end of a round has a result, in which again
  -- the ids are at most `sst_id_`: only a compaction that spills over overwrites a file in use.
  pub finish_flush-EndsRound :
      (db : Db mt) (t : Table)
      → db.in_flight ≡ some t
      → 0 < length db.manifest.levels_
      → AreUpTo db.sst_id db.manifest.levels_
      → is_over (merge_level p 0 (db.sst_id + 1 + 1) (flushed db t)) ≡ false
      → EndsRound (finish_flush mt p db)
  unfolding next_manifest insert_and_update build
  finish_flush-EndsRound db t f l w o =
      let free = is_in_use-above db.sst_id (db.sst_id + 1) db.manifest.levels_ w (omega arith) in
      let up =
        inserted-UpTo (db.sst_id + 1) db.manifest (build p (mt.entries t) (db.sst_id + 1))
          (omega arith)
          (AreUpTo-raise db.sst_id (db.sst_id + 1) db.manifest.levels_ (omega arith) w) in
      let long : 0 < length (flushed db t).levels_ = omega (
        arith,
        l,
        length-insert_first db.manifest.levels_ (build p (mt.entries t) (db.sst_id + 1)),
      ) in
      let done = compacted-ends db (flushed db t) _ refl long up o in
      (
        record db {
          in_flight = none;
          manifest = done.0;
          sst_id = if can_do_compaction (flushed db t) then db.sst_id + 1 + 1 else db.sst_id + 1;
        },
        (finish_flush-some db t done.0 f (rw free done.1.0), done.1.1),
      )
