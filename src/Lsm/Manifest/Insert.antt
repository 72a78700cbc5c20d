-- ===== src/Lsm/Manifest/Insert.antt =====
-- `InsertAndUpdate`: the new table answers first.
use moyuan_kv.Prelude.{
  ltb, if◌then◌else◌, length, All, All-append, Bytes, ◌+◌, ◌<◌, ◌≡◌, sym, ap, ◌∙◌, List, [], ◌∷◌,
  reverse, reverse-append, arith,
}
use moyuan_kv.Lsm.Entries.{lookup, lookup-append, or_else, or_else_assoc}
use moyuan_kv.Lsm.Sst.{Sst, entries}
use moyuan_kv.Lsm.Sst.Search.{IsValidSst}
use moyuan_kv.Lsm.Level
use moyuan_kv.Lsm.Level.{Level}
use moyuan_kv.Lsm.Level.Search.{IsValidLevel, ranked, all_entries}
use moyuan_kv.Lsm.Manifest.Range.{KeyNotEmpty}
use moyuan_kv.Lsm.Manifest.Tables.{KeysNotEmpty}
use moyuan_kv.Lsm.Manifest.Reading.{Numbered, search_levels, IsValid, manifest_get-search}
use moyuan_kv.Lsm.Manifest.{Manifest, insert_first, insert_and_update, get}

first-insert :
    (v : Level) (s : Sst) (k : Bytes)
    → v.level ≡ 0
    → lookup k (ranked (Level.insert v s)) ≡ or_else (lookup k (entries s)) (lookup k (ranked v))
unfolding Level.insert
first-insert v s k e = rw e (
    ap (λ ss. lookup k (all_entries ss)) (reverse-append v.ssts (s ∷ []))
    ∙ lookup-append k (entries s) (all_entries (reverse v.ssts)))

search-insert_first :
    (vs : List Level) (s : Sst) (k : Bytes)
    → Numbered 0 vs
    → 0 < length vs
    → search_levels k (insert_first vs s) ≡ or_else (lookup k (entries s)) (search_levels k vs)
unfolding insert_first
search-insert_first [] s k n h = elim h [ ]
search-insert_first (v ∷ vs) s k n h =
    ap (λ o. or_else o (search_levels k vs)) (first-insert v s k n.0)
    ∙ or_else_assoc (lookup k (entries s)) (lookup k (ranked v)) (search_levels k vs)

-- A level 0 takes any valid table.
insert-IsValidLevel :
    (v : Level) (s : Sst)
    → v.level ≡ 0
    → IsValidSst s
    → IsValidLevel v
    → IsValidLevel (Level.insert v s)
unfolding Level.insert
insert-IsValidLevel v s e w h = record {
  valid = All-append IsValidSst v.ssts (s ∷ []) h.valid (w, tt);
  disjoint = λ n. absurd (n e);
}

-- Putting a valid table without an empty key into a valid manifest gives a valid manifest.
pub insert_and_update-IsValid :
    (m : Manifest) (s : Sst)
    → IsValidSst s
    → All (λ e. KeyNotEmpty e.key) (entries s)
    → IsValid m
    → IsValid (insert_and_update m s)
unfolding insert_and_update
insert_and_update-IsValid m s w f v = go m.levels_ v.numbered v.levels v.filled v.not_empty
  where
    go :
        (vs : List Level)
        → Numbered 0 vs
        → All IsValidLevel vs
        → All (λ v. KeysNotEmpty v.ssts) vs
        → 0 < length vs
        → IsValid (record {
          version_ = m.version_ + 1;
          levels_ = insert_first vs s;
          max_sst_id_ = if ltb m.max_sst_id_ s.id then s.id else m.max_sst_id_;
        })
    go [] n l k h = elim h [ ]
    go (u ∷ us) n l k h =
        unfold insert_first Level.insert in
        record {
          numbered = n;
          levels = (insert-IsValidLevel u s n.0 w l.0, l.1);
          filled = (All-append _ u.ssts (s ∷ []) k.0 (f, tt), k.1);
          not_empty = omega arith;
        }

-- A valid table without an empty key that is put into a valid manifest answers before everything
-- that was there.
pub get-insert_and_update :
    (m : Manifest) (s : Sst) (k : Bytes)
    → IsValidSst s
    → All (λ e. KeyNotEmpty e.key) (entries s)
    → IsValid m
    → get (insert_and_update m s) k ≡ or_else (lookup k (entries s)) (get m k)
get-insert_and_update m s k w f v =
    manifest_get-search (insert_and_update m s) k (insert_and_update-IsValid m s w f v)
    ∙ unfold insert_and_update in
      search-insert_first m.levels_ s k v.numbered v.not_empty
      ∙ ap (or_else (lookup k (entries s))) (sym (manifest_get-search m k v))
