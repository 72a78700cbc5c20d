-- ===== src/Lsm/Level/Search.antt =====
-- What a level answers: on level 0 the newest table wins, on the others the tables are disjoint.
use moyuan_kv.Prelude.{
  ◌==◌, if◌then◌else◌, Bool-cases, get_or, All, All-reverse, Bytes, ℕ, zero, suc, ◌≡◌, refl, ap,
  ◌∙◌, ◌≢◌, inl, inr, List, [], ◌∷◌, ◌++◌, reverse, arith,
}
use moyuan_kv.Lsm.Entries.{Entry, Sorted, lookup, lookup-append}
use moyuan_kv.Lsm.Runs.{StartsWith, flat, pick, pick-bisect}
use moyuan_kv.Lsm.Sst.{Sst, first_key, entries}
use moyuan_kv.Lsm.Sst.Search.{sst_get-lookup, IsValidSst}
use moyuan_kv.Lsm.Sst
use moyuan_kv.Lsm.Bisect.{bisect}
use moyuan_kv.Lsm.Level.{Level, no_sst, read_each, read_found, get}

abbrev pub all_entries : List Sst → List Entry
all_entries [] = []
all_entries (s ∷ ss) = entries s ++ all_entries ss

abbrev pub ValidSsts : List Sst → Type 0
ValidSsts ss = All IsValidSst ss

-- The tables are valid; above level 0 their key ranges rise and do not meet.
pub record IsValidLevel (v : Level) : Type 0 where
  pub valid : ValidSsts v.ssts
  pub disjoint : v.level ≢ 0 → Sorted (all_entries v.ssts)

-- The entries of a level in the order in which they count.
abbrev pub ranked : Level → List Entry
ranked v = all_entries (if v.level == 0 then reverse v.ssts else v.ssts)

read_each-lookup :
    (ss : List Sst) (k : Bytes) → ValidSsts ss → read_each ss k ≡ lookup k (all_entries ss)
unfolding read_each
read_each-lookup [] k v = unfold lookup in refl
read_each-lookup (s ∷ ss) k v = ground (
  arith,
  sst_get-lookup s k v.0,
  read_each-lookup ss k v.1,
  lookup-append k (entries s) (all_entries ss),
)

Headed_of_valid :
    (ss : List Sst) → ValidSsts ss → All (λ s. StartsWith (first_key s) (entries s)) ss
Headed_of_valid [] v = tt
Headed_of_valid (s ∷ ss) v = (v.0.not_empty, Headed_of_valid ss v.1)

read_found-pick :
    (ss : List Sst) (k : Bytes) (l : ℕ)
    → ValidSsts ss
    → read_found ss k l ≡ pick first_key entries no_sst ss k l
unfolding read_found lookup Sst.get Sst.read_block bisect
read_found-pick ss k zero v = refl
read_found-pick ss k (suc l) v = read_nth ss l v
  where
    read_nth :
        (ts : List Sst) (i : ℕ)
        → ValidSsts ts
        → Sst.get (get_or ts i no_sst) k ≡ lookup k (entries (get_or ts i no_sst))
    read_nth [] i v = refl
    read_nth (t ∷ ts) zero v = sst_get-lookup t k v.0
    read_nth (t ∷ ts) (suc i) v = read_nth ts i v.1

all_entries-flat : (ss : List Sst) → flat first_key entries no_sst ss ≡ all_entries ss
all_entries-flat [] = refl
all_entries-flat (s ∷ ss) = ap (λ es. entries s ++ es) (all_entries-flat ss)

-- On a valid level `Get` returns what a sequential search over its entries finds: on level 0 over
-- the tables from the newest to the oldest, on another level over the tables in their order.
pub level_get-lookup : (v : Level) (k : Bytes) → IsValidLevel v → get v k ≡ lookup k (ranked v)
unfolding get
level_get-lookup v k h = elim (Bool-cases (v.level == 0)) [
  | inl zeroth ↦
      rw (zeroth, if◌then◌else◌)
        (read_each-lookup (reverse v.ssts) k (All-reverse IsValidSst v.ssts h.valid))
  | inr deeper ↦
      let sorted = h.disjoint (λ e. ground (arith, e)) in
      rw deeper (
        read_found-pick v.ssts k _ h.valid
        ∙ pick-bisect first_key entries no_sst v.ssts k (Headed_of_valid v.ssts h.valid)
            (rw (all_entries-flat v.ssts) sorted)
        ∙ ap (lookup k) (all_entries-flat v.ssts))
]
