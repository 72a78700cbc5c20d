-- ===== src/Lsm/Sst/Search.antt =====
-- `SST::Get` is the sequential search over the table's entries, and a built table is valid.
use moyuan_kv.Prelude.{
  length, get_or, All, Bytes, ℕ, zero, suc, ◌≡◌, refl, ap, ◌∙◌, List, [], ◌∷◌, ◌++◌, append-nil,
}
use moyuan_kv.Bloom.{init}
use moyuan_kv.Bloom.Membership.{check-insert_all, init-IsReady}
use moyuan_kv.Lsm.Entries.{Entry, Sorted, lookup}
use moyuan_kv.Lsm.Runs.{StartsWith, flat, pick, pick-bisect}
use moyuan_kv.Lsm.Block.Search.{get-lookup, IsValidBlock}
use moyuan_kv.Lsm.Sst.{
  Sst, BlockIndex, TableParams, no_block, read_block, get, entries, block_entries, keys,
  build_block, build, first_key,
}

abbrev block_items : BlockIndex → List Entry
block_items b = b.block.data_index

-- Valid blocks under their first keys, at least one of them, and rising keys throughout.
pub record IsValidSst (s : Sst) : Type 0 where
  pub valid_blocks : All (λ b. IsValidBlock b.block) s.blocks
  pub headed : All (λ b. StartsWith b.key b.block.data_index) s.blocks
  pub sorted : Sorted (entries s)
  pub not_empty : StartsWith (first_key s) (entries s)

no_block-IsValidBlock : IsValidBlock no_block.block
no_block-IsValidBlock = record { sorted = tt; hashed = tt }

valid_block :
    (bs : List BlockIndex) (i : ℕ)
    → All (λ b. IsValidBlock b.block) bs
    → IsValidBlock (get_or bs i no_block).block
valid_block [] i v = no_block-IsValidBlock
valid_block (b ∷ bs) zero v = v.0
valid_block (b ∷ bs) (suc i) v = valid_block bs i v.1

read_block-pick :
    (bs : List BlockIndex) (k : Bytes) (r : ℕ)
    → All (λ b. IsValidBlock b.block) bs
    → read_block bs k r ≡ pick (λ b. b.key) block_items no_block bs k r
unfolding read_block
read_block-pick bs k zero v = refl
read_block-pick bs k (suc r) v = get-lookup (get_or bs r no_block).block k (valid_block bs r v)

block_entries-flat :
    (bs : List BlockIndex) → flat (λ b. b.key) block_items no_block bs ≡ block_entries bs
block_entries-flat [] = refl
block_entries-flat (b ∷ bs) = ap (λ es. b.block.data_index ++ es) (block_entries-flat bs)

-- On a valid table `Get` returns the value that a sequential search over all its blocks finds.
pub sst_get-lookup : (s : Sst) (k : Bytes) → IsValidSst s → get s k ≡ lookup k (entries s)
unfolding get
sst_get-lookup s k v =
    read_block-pick s.blocks k _ v.valid_blocks
    ∙ pick-bisect (λ b. b.key) block_items no_block s.blocks k v.headed
        (rw (block_entries-flat s.blocks) v.sorted)
    ∙ ap (lookup k) (block_entries-flat s.blocks)

All-keys : (P : Bytes → Type 0) (es : List Entry) → All P (keys es) → All (λ e. P e.key) es
All-keys P [] h = tt
All-keys P (e ∷ es) h = (h.0, All-keys P es h.1)

-- The constructors make a valid table of entries that are sorted and not none.
pub build-IsValidSst :
    (p : TableParams) (e : Entry) (es : List Entry) (id : ℕ)
    → Sorted (e ∷ es)
    → IsValidSst (build p (e ∷ es) id)
unfolding build build_block first_key
build-IsValidSst p e es id s = record {
  valid_blocks = (
    record {
      sorted = s;
      hashed = All-keys _ (e ∷ es) (
          check-insert_all (init n (p.filter_seeds count)) (keys (e ∷ es))
            (init-IsReady n (p.filter_seeds count) (p.filter_length_pos count)));
    },
    tt,
  );
  headed = (refl, tt);
  sorted = rw append-nil s;
  not_empty = refl;
}
  where
    count : ℕ
    count = length (e ∷ es)

    n : ℕ
    n = p.filter_length count

pub entries-build : (p : TableParams) (es : List Entry) (id : ℕ) → entries (build p es id) ≡ es
unfolding build build_block
entries-build p es id = append-nil es
